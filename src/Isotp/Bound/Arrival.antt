-- ===== src/Isotp/Bound/Arrival.antt =====
-- Frames that arrive at a bound context (src/can/zephyr/isotp/isotp_fast.c) one by one, each when the work that the
-- one before has submitted has run.
use thingsetplusplus.Prelude.{
  ℕ, suc, ◌+◌, ◌-◌, ◌<◌, ◌≡◌, refl, sym, ap, ◌∙◌, Bool, true, false, not, ◌||◌, List, [], ◌∷◌, ◌++◌,
  Option, none, some, length, append_assoc, append_nil, ◌==◌, if◌then◌else◌, arith,
}
use thingsetplusplus.Bytes.{Bytes}
use thingsetplusplus.Isotp.{
  CanFrame, Driver, Config, RecvCtx, Work, recv_work, World, live, freed, pci_type,
  get_tx_addr_fixed,
}
use thingsetplusplus.Isotp.Receive.{contents, receive_dispatch, receive_state_machine}
use thingsetplusplus.Isotp.Bound.{
  Bound, find, recv_addr, can_rx_callback, run_work, receive_fc, receive_can_rx, on_recv_lookup,
  get_recv_ctx, extend_recv_ctx, got, commit_recv, run_next, work_handler,
}
use thingsetplusplus.Isotp.Bound.Contexts.{find-last, put-last, remove-last}

module _ {D : Type 0} (can : Driver D) (config : Config) where
  unfoldable pub arrive : ℕ → CanFrame → Bound D → Option (Bound D)
  arrive fuel frame b = elim (can_rx_callback can config frame b) [
    | none ↦ none
    | some b' ↦ run_work can config fuel b'
  ]

  unfoldable pub arrive_each : ℕ → List CanFrame → Bound D → Option (Bound D)
  unfolding arrive
  arrive_each fuel [] b = some b
  arrive_each fuel (f ∷ fs) b = elim (arrive fuel f b) [
    | none ↦ none
    | some b' ↦ arrive_each fuel fs b'
  ]

pub contents-snoc : (bs : List Bytes) (b : Bytes) → contents (bs ++ b ∷ []) ≡ contents bs ++ b
unfolding contents
contents-snoc [] b = append_nil b
contents-snoc (x ∷ xs) b = ap (x ++◌) (contents-snoc xs b) ∙ sym (append_assoc x (contents xs) b)

-- The bound context with one more context at the end of those that receive.
abbrev pub having : {D : Type 0} → Bound D → List RecvCtx → RecvCtx → World D → Bound D
having b others c w = record b { receiving = others ++ c ∷ []; world = w }

-- What a frame in the middle of a message leaves as it was.
pub record Kept {D : Type 0} (c c' : RecvCtx) (w w' : World D) : Type 0 where
  pub address : c'.rx_addr ≡ c.rx_addr
  pub buffers : w'.free_bufs + length c'.buffer ≡ w.free_bufs + length c.buffer
  pub taken : w.free_bufs ≡ suc w'.free_bufs
  pub delivered : w'.delivered ≡ w.delivered
  pub failed : w'.failed ≡ w.failed
  pub finished : w'.finished ≡ w.finished
  pub free_recv : w'.free_recv ≡ w.free_recv
  pub free_send : w'.free_send ≡ w.free_send
  pub queue : w'.queue ≡ []

-- A message has been delivered, and its context is free again.
pub record Delivers {D : Type 0} (a : ℕ) (message : Bytes) (bufs : ℕ) (w w' : World D)
    : Type 0 where
  pub delivered : w'.delivered ≡ w.delivered ++ (a, message) ∷ []
  pub buffers : w'.free_bufs ≡ w.free_bufs + bufs
  pub failed : w'.failed ≡ w.failed
  pub finished : w'.finished ≡ w.finished
  pub free_recv : w'.free_recv ≡ suc w.free_recv
  pub free_send : w'.free_send ≡ w.free_send
  pub queue : w'.queue ≡ []

module _ {D : Type 0} (can : Driver D) (config : Config) (b : Bound D) (open_ : b.filter ≡ true)
    (others : List RecvCtx) where
  -- The context with the fragment for the next frame.
  abbrev pub extended : RecvCtx → RecvCtx
  extended c = record c { buffer = c.buffer ++ c.frag ∷ []; frag = [] }

  abbrev pub one_less : World D → World D
  one_less w = record w { free_bufs = w.free_bufs - 1 }

  get_recv_ctx-existing :
      (c : RecvCtx) (w : World D) (create : Bool)
      → find recv_addr c.rx_addr others ≡ none
      → 0 < w.free_bufs
      → get_recv_ctx c.rx_addr create (having b others c w)
        ≡ (got (extended c), having b others (extended c) (one_less w))
  unfolding get_recv_ctx extend_recv_ctx
  get_recv_ctx-existing c w create absent room =
      let some_bufs : (w.free_bufs == 0) ≡ false = ground arith in
      rw
        (
          find-last recv_addr others c absent,
          some_bufs,
          put-last recv_addr others c (extended c) absent refl,
          get_recv_ctx,
        )
        refl

  receive_can_rx-existing :
      (c : RecvCtx) (w : World D) (frame : CanFrame)
      → find recv_addr c.rx_addr others ≡ none
      → 0 < w.free_bufs
      → receive_can_rx can config c.rx_addr frame (having b others c w)
        ≡ commit_recv c.rx_addr
            (having b others (extended c) (one_less w))
            (receive_dispatch can config c.state frame (extended c) (one_less w))
  unfolding receive_can_rx on_recv_lookup
  receive_can_rx-existing c w frame absent room =
      rw (get_recv_ctx-existing c w (pci_type frame == 16 || pci_type frame == 0) absent room) refl

  can_rx-existing :
      (c : RecvCtx) (w : World D) (frame : CanFrame)
      → find recv_addr c.rx_addr others ≡ none
      → frame.id ≡ c.rx_addr
      → (pci_type frame == 48) ≡ false
      → 0 < w.free_bufs
      → can_rx_callback can config frame (having b others c w)
        ≡ commit_recv c.rx_addr
            (having b others (extended c) (one_less w))
            (receive_dispatch can config c.state frame (extended c) (one_less w))
  unfolding can_rx_callback
  can_rx-existing c w frame absent from is_fc room =
      let as_fc : Option (Bound D) =
        receive_fc can config (get_tx_addr_fixed config frame.id) frame (having b others c w) in
      let as_part : Option (Bound D) =
        receive_can_rx can config frame.id frame (having b others c w) in
      ap
        (λ (x : Bool).
          if not x
          then some (having b others c w)
          else if pci_type frame == 48
          then as_fc
          else as_part)
        open_
      ∙ ap (λ (x : Bool). if x then as_fc else as_part) is_fc
      ∙ ap (λ (i : ℕ). receive_can_rx can config i frame (having b others c w)) from
      ∙ receive_can_rx-existing c w frame absent room

  -- The frame leaves the context in being: what remains is the work.
  pub arrive-live :
      (fuel : ℕ) (c c' : RecvCtx) (w w' : World D) (frame : CanFrame)
      → find recv_addr c.rx_addr others ≡ none
      → frame.id ≡ c.rx_addr
      → (pci_type frame == 48) ≡ false
      → 0 < w.free_bufs
      → c'.rx_addr ≡ c.rx_addr
      → receive_dispatch can config c.state frame (extended c) (one_less w) ≡ live c' w'
      → arrive can config fuel frame (having b others c w)
        ≡ run_work can config fuel (having b others c' w')
  unfolding arrive commit_recv
  arrive-live fuel c c' w w' frame absent from is_fc room same result =
      rw
        (
          can_rx-existing c w frame absent from is_fc room,
          arrive,
          result,
          put-last recv_addr others (extended c) c' absent same,
        )
        refl

  pub run_work-idle :
      (fuel : ℕ) (c : RecvCtx) (w : World D)
      → w.queue ≡ []
      → run_work can config fuel (having b others c w) ≡ some (having b others c w)
  unfolding run_work run_next
  run_work-idle fuel c w idle =
      ap (λ (q : List Work). run_next can config fuel q (having b others c w)) idle

  module _ (fuel : ℕ) (c : RecvCtx) (w : World D) (absent : find recv_addr c.rx_addr others ≡ none)
      (one : w.queue ≡ recv_work c.rx_addr ∷ []) where
    pub run_work-one :
        run_work can config fuel (having b others c w)
        ≡ commit_recv c.rx_addr
            (having b others c (record w { queue = [] }))
            (receive_state_machine can config fuel c (record w { queue = [] }))
    unfolding run_work run_next work_handler
    run_work-one =
        ap (λ (q : List Work). run_next can config fuel q (having b others c w)) one
        ∙ rw (find-last recv_addr others c absent, work_handler) refl

    pub run_work-live :
        (c' : RecvCtx) (w' : World D)
        → receive_state_machine can config fuel c (record w { queue = [] }) ≡ live c' w'
        → c'.rx_addr ≡ c.rx_addr
        → run_work can config fuel (having b others c w) ≡ some (having b others c' w')
    unfolding commit_recv
    run_work-live c' w' result same =
        rw (run_work-one, result, put-last recv_addr others c c' absent same) refl

    pub run_work-freed :
        (w' : World D)
        → receive_state_machine can config fuel c (record w { queue = [] }) ≡ freed w'
        → run_work can config fuel (having b others c w)
          ≡ some (record b { receiving = others; world = w' })
    unfolding commit_recv
    run_work-freed w' result = rw (run_work-one, result, remove-last recv_addr others c absent) refl
