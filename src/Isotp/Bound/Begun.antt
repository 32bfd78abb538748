-- ===== src/Isotp/Bound/Begun.antt =====
-- The first frame of a message that arrives at a bound context (src/can/zephyr/isotp/isotp_fast.c), up to the work that it
-- submits.
use thingsetplusplus.Prelude.{
  ℕ, ◌+◌, ◌-◌, ◌*◌, ◌/◌, ◌%◌, ◌≤◌, ◌<◌, ◌≡◌, refl, ap, ◌∙◌, Bool, true, false, not, ◌||◌, [], ◌∷◌,
  Option, none, some, length, take, drop, length-drop, leb, ◌==◌, if◌then◌else◌, bit_and, arith,
}
use thingsetplusplus.Bytes.{Bytes}
use thingsetplusplus.Isotp.{
  CanFrame, Driver, Config, RecvCtx, process_ff, recv_work, World, Run, live, ◌>>=◌, pci_type,
  get_tx_addr_fixed,
}
use thingsetplusplus.Isotp.Pci.{high_half, low_half}
use thingsetplusplus.Isotp.Segments.{Documented, Begins}
use thingsetplusplus.Isotp.Receive.{
  new_recv_ctx, receive_dispatch, process_ff_sf, process_first, add_to_frag, submit,
  receive_get_ff_length,
}
use thingsetplusplus.Isotp.Bound.{
  Bound, find, recv_addr, can_rx_callback, receive_fc, receive_can_rx, on_recv_lookup, get_recv_ctx,
  create_recv_ctx, got, commit_recv,
}
use thingsetplusplus.Isotp.Bound.Contexts.{put-last}
use thingsetplusplus.Isotp.Bound.Arrival.{having}
use thingsetplusplus.Isotp.Bound.Fragment.{submit-once}

-- The new context with what the first frame holds.
abbrev pub begun : {D : Type 0} → Driver D → Bytes → ℕ → RecvCtx
begun can message a = record (new_recv_ctx a) {
  frag = take (can.max_dlen - 2) message;
  rem_len = length (drop (can.max_dlen - 2) message);
  state = process_ff;
  sn_expected = 1;
}

-- A context and a buffer less, for the new message.
abbrev pub taken : {D : Type 0} → World D → World D
taken w = record w { free_recv = w.free_recv - 1; free_bufs = w.free_bufs - 1 }

module _ {D : Type 0} (can : Driver D) (config : Config) (documented : Documented can)
    (message : Bytes) (long : can.max_dlen - 2 < length message) (short : length message ≤ 4095)
    (frame : CanFrame) (begins : Begins can message frame) where
  is_ff : pci_type frame ≡ 16
  is_ff = rw begins.high (omega (arith, high_half (16 + length message / 256)))

  ff_length : receive_get_ff_length frame ≡ length message
  unfolding receive_get_ff_length
  ff_length =
      let low = low_half (16 + length message / 256) in
      let some_length : (length message == 0) ≡ false = ground arith in
      let whole : bit_and (16 + length message / 256) 15 * 256 + length message % 256
          ≡ length message =
        omega (arith, low) in
      rw (begins.high, begins.low, whole, some_length) refl

  process_first-new :
      (a : ℕ) (w : World D)
      → process_first can config frame (new_recv_ctx a) w ≡ live (begun can message a) w
  unfolding process_first add_to_frag new_recv_ctx
  process_first-new a w =
      let coded : (frame.dlc == can.ff_dl_min) ≡ true = ground (arith, begins.coded) in
      let fits : leb (0 + (can.max_dlen - 2)) (can.max_dlen - 1) ≡ true = ground arith in
      let left : (length message % 4096 + 4096 - (can.max_dlen - 2)) % 4096
          ≡ length (drop (can.max_dlen - 2) message) =
        ground (arith, documented.is_byte, length-drop (can.max_dlen - 2) message) in
      rw (coded, ff_length, fits, left, begins.holds) refl

  module _ (b : Bound D) (open_ : b.filter ≡ true) (idle : b.world.queue ≡ [])
      (absent : find recv_addr frame.id b.receiving ≡ none) (ctxs : 0 < b.world.free_recv)
      (bufs : 0 < b.world.free_bufs) where
    get_recv_ctx-new : get_recv_ctx frame.id true b ≡ (
      got (new_recv_ctx frame.id),
      having b b.receiving (new_recv_ctx frame.id) (taken b.world),
    )
    unfolding get_recv_ctx create_recv_ctx
    get_recv_ctx-new =
        let some_ctxs : (b.world.free_recv == 0) ≡ false = ground arith in
        let some_bufs : (b.world.free_bufs == 0) ≡ false = ground arith in
        rw (absent, some_ctxs, some_bufs, get_recv_ctx) refl

    dispatch-new :
        receive_dispatch can config
          (new_recv_ctx frame.id).state
          frame
          (new_recv_ctx frame.id)
          (taken b.world)
        ≡ live
            (begun can message frame.id)
            (record (taken b.world) { queue = recv_work frame.id ∷ [] })
    unfolding receive_dispatch process_ff_sf new_recv_ctx
    dispatch-new = rw (is_ff) (
        ap (λ (r : Run RecvCtx D). r >>= λ c' w'. live c' (submit (recv_work frame.id) w'))
          (process_first-new frame.id (taken b.world))
        ∙ ap (live (begun can message frame.id)) (submit-once frame.id (taken b.world) idle))

    pub rx-new :
        can_rx_callback can config frame b
        ≡ some (
            having b b.receiving
              (begun can message frame.id)
              (record (taken b.world) { queue = recv_work frame.id ∷ [] }))
    unfolding can_rx_callback receive_can_rx on_recv_lookup commit_recv new_recv_ctx
    rx-new =
        let is_fc : (pci_type frame == 48) ≡ false = rw is_ff refl in
        let creates : (pci_type frame == 16 || pci_type frame == 0) ≡ true = rw is_ff refl in
        let as_fc : Option (Bound D) =
          receive_fc can config (get_tx_addr_fixed config frame.id) frame b in
        let as_part : Option (Bound D) = receive_can_rx can config frame.id frame b in
        ap (λ (x : Bool). if not x then some b else if pci_type frame == 48 then as_fc else as_part)
          open_
        ∙ ap (λ (x : Bool). if x then as_fc else as_part) is_fc
        ∙ ap (λ (x : Bool). on_recv_lookup can config frame.id frame (get_recv_ctx frame.id x b))
            creates
        ∙ ap (on_recv_lookup can config frame.id frame) get_recv_ctx-new
        ∙ ap (commit_recv frame.id (having b b.receiving (new_recv_ctx frame.id) (taken b.world)))
            dispatch-new
        ∙ rw
            (put-last recv_addr b.receiving (new_recv_ctx frame.id) (begun can message frame.id)
              absent refl)
            refl
