-- ===== src/Isotp/Bound/Handlers.antt =====
-- The handlers of src/can/zephyr/isotp/isotp_fast.c, for frames, work, timers and completions, and the contexts and
-- buffers that they take and give back.
use thingsetplusplus.Prelude.{
  ℕ, ◌≡◌, inl, inr, Bool, true, false, not, ◌||◌, List, [], ◌∷◌, Option, none, some, ◌==◌,
  if◌then◌else◌, arith, Bool-cases, Option-cases,
}
use thingsetplusplus.Bytes.{Bytes}
use thingsetplusplus.Isotp.{
  CanFrame, Driver, Config, RecvCtx, SendCtx, Work, recv_work, send_work, World, Run, pci_type,
  get_tx_addr_fixed,
}
use thingsetplusplus.Isotp.Receive.{receive_dispatch, receive_state_machine}
use thingsetplusplus.Isotp.Receive.Keeps.{
  RecvKeeps, receive_state_machine-Keeps, receive_dispatch-Keeps,
}
use thingsetplusplus.Isotp.Send.{send_state_machine, send_can_rx, new_send_ctx}
use thingsetplusplus.Isotp.Send.Keeps.{SendKeeps, send_state_machine-Keeps, send_can_rx-Keeps}
use thingsetplusplus.Isotp.Bound.Contexts.{find-last}
use thingsetplusplus.Isotp.Bound.Balance.{
  total-snoc, one, Balanced, BalancedAfter, commit_recv-Balanced, commit_send-Balanced, RecvFound,
  get_recv_ctx-Balanced,
}
use thingsetplusplus.Isotp.Calls.{single_done, isotp_fast_send}
use thingsetplusplus.Isotp.Bound.{
  Bound, find, recv_addr, send_addr, Lookup, got, no_context, no_ctx_left, no_buf_left, commit_recv,
  commit_send, get_recv_ctx, get_send_ctx, on_recv_lookup, receive_can_rx, on_send_lookup,
  receive_fc, can_rx_callback, work_handler, run_next, run_work, recv_expired, send_expired,
  fc_done, frame_done,
}

pub data BusEvent : Type 0 where
  frame_arrives : CanFrame → BusEvent
  work_runs : BusEvent
  recv_timer_expires : ℕ → BusEvent
  send_timer_expires : ℕ → BusEvent
  fc_completes : Bool → ℕ → BusEvent
  frame_completes : Bool → ℕ → BusEvent
  single_completes : Bool → ℕ → BusEvent
  application_sends : Bytes → ℕ → BusEvent

module _ {D : Type 0} (can : Driver D) (config : Config) (fuel : ℕ) where
  unfoldable pub on_event : BusEvent → Bound D → Option (Bound D)
  on_event (frame_arrives frame) b = can_rx_callback can config frame b
  on_event work_runs b = run_work can config fuel b
  on_event (recv_timer_expires a) b = recv_expired can config a b
  on_event (send_timer_expires a) b = send_expired can config a b
  on_event (fc_completes error a) b = fc_done can config error a b
  on_event (frame_completes error a) b = frame_done can config error a b
  on_event (single_completes error a) b = single_done can config error a b
  on_event (application_sends message a) b = some (isotp_fast_send can config message a b).1

  unfoldable pub and_then : (Bound D → Option (Bound D)) → Option (Bound D) → Option (Bound D)
  and_then f none = none
  and_then f (some b) = f b

  unfoldable pub on_events : List BusEvent → Bound D → Option (Bound D)
  unfolding on_event and_then
  on_events [] b = some b
  on_events (e ∷ es) b = and_then (on_events es) (on_event e b)

module _ {D : Type 0} (can : Driver D) (config : Config) (fuel recvs sends bufs : ℕ) where
  on_recv_lookup-Balanced :
      (a : ℕ) (frame : CanFrame) (r : Lookup RecvCtx × Bound D) (b : Bound D)
      (h : Balanced recvs sends bufs b)
      → RecvFound recvs sends bufs b h a r
      → BalancedAfter recvs sends bufs (on_recv_lookup can config a frame r)
  unfolding on_recv_lookup
  on_recv_lookup-Balanced a frame (got c, b') b h (balanced, there) =
      commit_recv-Balanced recvs sends bufs b' balanced a c
        (receive_dispatch can config c.state frame c b'.world) there
        (receive_dispatch-Keeps can config c.state frame c b'.world)
  on_recv_lookup-Balanced a frame (no_context, b') b h balanced = balanced
  on_recv_lookup-Balanced a frame (no_ctx_left, b') b h balanced = balanced
  on_recv_lookup-Balanced a frame (no_buf_left, b') b h balanced = balanced

  module _ (b : Bound D) (h : Balanced recvs sends bufs b) where
    abbrev pub SendFound : ℕ → Lookup SendCtx × Bound D → Type 0
    SendFound a (got c, b') = Balanced recvs sends bufs b' × (find send_addr a b'.sending ≡ some c)
    SendFound a (no_context, b') = Balanced recvs sends bufs b'
    SendFound a (no_ctx_left, b') = Balanced recvs sends bufs b'
    SendFound a (no_buf_left, b') = Balanced recvs sends bufs b'

    pub get_send_ctx-Balanced :
        (a : ℕ) (create : Bool) → SendFound a (get_send_ctx can config a create b)
    unfolding get_send_ctx new_send_ctx
    get_send_ctx-Balanced a create = elim (Option-cases (find send_addr a b.sending)) [
      | inr (c, there) ↦ rw (there, get_send_ctx) (h, there)
      | inl absent ↦ elim (Bool-cases create) [
        | inr kept ↦ rw (absent, kept, get_send_ctx) h
        | inl creates ↦ elim (Bool-cases (b.world.free_send == 0)) [
          | inl full ↦ rw (absent, creates, full, get_send_ctx) h
          | inr some_left ↦
              rw (absent, creates, some_left, get_send_ctx)
                (
                  record {
                    recv_slab = h.recv_slab;
                    send_slab = ground (
                      arith,
                      h.send_slab,
                      total-snoc send_addr one b.sending (new_send_ctx can config a),
                    );
                    pool = h.pool;
                  },
                  find-last send_addr b.sending (new_send_ctx can config a) absent,
                )
        ]
      ]
    ]

    on_send_lookup-Balanced :
        (a : ℕ) (frame : CanFrame) (r : Lookup SendCtx × Bound D)
        → SendFound a r
        → BalancedAfter recvs sends bufs (on_send_lookup can config a frame r)
    unfolding on_send_lookup
    on_send_lookup-Balanced a frame (got c, b') (balanced, there) =
        commit_send-Balanced recvs sends bufs b' balanced a c
          (send_can_rx can config frame c b'.world) there
          (send_can_rx-Keeps can config frame c b'.world)
    on_send_lookup-Balanced a frame (no_context, b') balanced = balanced
    on_send_lookup-Balanced a frame (no_ctx_left, b') balanced = balanced
    on_send_lookup-Balanced a frame (no_buf_left, b') balanced = balanced

    pub can_rx_callback-Balanced :
        (frame : CanFrame) → BalancedAfter recvs sends bufs (can_rx_callback can config frame b)
    unfolding can_rx_callback receive_fc receive_can_rx
    can_rx_callback-Balanced frame =
        let as_fc : Option (Bound D) =
          receive_fc can config (get_tx_addr_fixed config frame.id) frame b in
        let as_part : Option (Bound D) = receive_can_rx can config frame.id frame b in
        by_tests b.filter (pci_type frame == 48) as_fc as_part
          (on_send_lookup-Balanced (get_tx_addr_fixed config frame.id) frame
            (get_send_ctx can config (get_tx_addr_fixed config frame.id) false b)
            (get_send_ctx-Balanced (get_tx_addr_fixed config frame.id) false))
          (on_recv_lookup-Balanced frame.id frame
            (get_recv_ctx frame.id (pci_type frame == 16 || pci_type frame == 0) b) b h
            (get_recv_ctx-Balanced recvs sends bufs b h frame.id
              (pci_type frame == 16 || pci_type frame == 0)))
      where
        by_tests :
            (x y : Bool) (p q : Option (Bound D))
            → BalancedAfter recvs sends bufs p
            → BalancedAfter recvs sends bufs q
            → BalancedAfter recvs sends bufs (if not x then some b else if y then p else q)
        by_tests false y p q hp hq = h
        by_tests true true p q hp hq = hp
        by_tests true false p q hp hq = hq

    with_queue :
        (q : List Work)
        → Balanced recvs sends bufs (record b { world = record b.world { queue = q } })
    with_queue q = record { recv_slab = h.recv_slab; send_slab = h.send_slab; pool = h.pool }

  work_handler-Balanced :
      (i : Work) (b : Bound D)
      → Balanced recvs sends bufs b
      → BalancedAfter recvs sends bufs (work_handler can config fuel i b)
  unfolding work_handler
  work_handler-Balanced (recv_work a) b h = elim (Option-cases (find recv_addr a b.receiving)) [
    | inl absent ↦ rw (absent, work_handler) tt
    | inr (c, there) ↦
        rw (there, work_handler)
          (commit_recv-Balanced recvs sends bufs b h a c
            (receive_state_machine can config fuel c b.world) there
            (receive_state_machine-Keeps can config fuel c b.world))
  ]
  work_handler-Balanced (send_work a) b h = elim (Option-cases (find send_addr a b.sending)) [
    | inl absent ↦ rw (absent, work_handler) tt
    | inr (c, there) ↦
        rw (there, work_handler)
          (commit_send-Balanced recvs sends bufs b h a c
            (send_state_machine can config fuel c b.world) there
            (send_state_machine-Keeps can config fuel c b.world))
  ]

  pub run_next-Balanced :
      (q : List Work) (b : Bound D)
      → Balanced recvs sends bufs b
      → BalancedAfter recvs sends bufs (run_next can config fuel q b)
  unfolding run_next
  run_next-Balanced [] b h = h
  run_next-Balanced (i ∷ is) b h = work_handler-Balanced i _ (with_queue b h is)

  -- The callbacks of timers and frames, on the context that they belong to.
  pub on_recv-Balanced :
      (a : ℕ) (f : RecvCtx → World D → Run RecvCtx D) (b : Bound D)
      → Balanced recvs sends bufs b
      → ((c : RecvCtx) → RecvKeeps c b.world (f c b.world))
      → BalancedAfter recvs sends bufs (elim (find recv_addr a b.receiving) [
        | some c ↦ commit_recv a b (f c b.world)
        | none ↦ none
      ])
  on_recv-Balanced a f b h keeps = elim (Option-cases (find recv_addr a b.receiving)) [
    | inl absent ↦ rw absent tt
    | inr (c, there) ↦
        rw there (commit_recv-Balanced recvs sends bufs b h a c (f c b.world) there (keeps c))
  ]

  pub on_send-Balanced :
      (a : ℕ) (f : SendCtx → World D → Run SendCtx D) (b : Bound D)
      → Balanced recvs sends bufs b
      → ((c : SendCtx) → SendKeeps c b.world (f c b.world))
      → BalancedAfter recvs sends bufs (elim (find send_addr a b.sending) [
        | some c ↦ commit_send a b (f c b.world)
        | none ↦ none
      ])
  on_send-Balanced a f b h keeps = elim (Option-cases (find send_addr a b.sending)) [
    | inl absent ↦ rw absent tt
    | inr (c, there) ↦
        rw there (commit_send-Balanced recvs sends bufs b h a c (f c b.world) there (keeps c))
  ]
