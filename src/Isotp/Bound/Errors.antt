-- ===== src/Isotp/Bound/Errors.antt =====
-- Receiving where something goes wrong (src/can/zephyr/isotp/isotp_fast.c).
use thingsetplusplus.Prelude.{
  ℕ, suc, ◌+◌, ◌-◌, ◌*◌, ◌%◌, ◌≤◌, ◌<◌, ◌&&◌, ltb, drop, length-drop, ◌≡◌, ◌≢◌, refl, sym, ap, ◌∙◌,
  ◌⊎◌, inl, inr, Bool, true, false, List, [], ◌∷◌, ◌++◌, none, some, length, length-append, ◌==◌,
  if◌then◌else◌, bit_and, arith, Bool-cases, subst,
}
use thingsetplusplus.Isotp.{
  CanFrame, queued, Driver, IsotpError, unexp_pdu, wrong_sn, buffer_overflow, Config, RecvCtx,
  RxState, wait_cf, send_fc, recv_work, World, Run, live, freed, fault, ◌>>=◌, byte_at, pci_type,
}
use thingsetplusplus.Isotp.Receive.{
  receive_dispatch, process_cf, receive_report_error, submit, submit_unless_waiting,
  receive_state_machine, receive_send_fc, on_err, on_send_fc, is_overflow, fc_frame, new_recv_ctx,
}
use thingsetplusplus.Isotp.Receive.Keeps.{SendResult-cases}
use thingsetplusplus.Isotp.Bound.{Bound, find, recv_addr, fc_done, commit_recv}
use thingsetplusplus.Isotp.Bound.Contexts.{remove-last}
use thingsetplusplus.Isotp.Bound.Arrival.{
  arrive, having, extended, one_less, arrive-live, run_work-freed, run_work-one,
}
use thingsetplusplus.Isotp.Bound.Fragment.{submit-twice}
use thingsetplusplus.Isotp.Bound.Begun.{begun, taken, rx-new}
use thingsetplusplus.Isotp.Segments.{Documented, Begins}
use thingsetplusplus.Bytes.{Bytes}

-- A message has been given up, and its context is free again.
pub record GivesUp {D : Type 0} (a : ℕ) (e : IsotpError) (bufs : ℕ) (w w' : World D) : Type 0 where
  pub failed : w'.failed ≡ w.failed ++ (a, some e) ∷ []
  pub delivered : w'.delivered ≡ w.delivered
  pub buffers : w'.free_bufs ≡ w.free_bufs + bufs
  pub free_recv : w'.free_recv ≡ suc w.free_recv
  pub free_send : w'.free_send ≡ w.free_send
  pub frames : w'.frames ≡ w.frames
  pub queue : w'.queue ≡ []

module _ {D : Type 0} (can : Driver D) (config : Config) (fuel : ℕ) where
  -- A frame that is not the next one of the message: another type of frame, or another number.
  unfoldable pub error_of : CanFrame → IsotpError
  error_of frame = if pci_type frame == 32 then wrong_sn else unexp_pdu

  module _ (b : Bound D) (others : List RecvCtx) (c : RecvCtx) (w : World D) (frame : CanFrame)
      (open_ : b.filter ≡ true) (waiting : c.state ≡ wait_cf)
      (absent : find recv_addr c.rx_addr others ≡ none) (from : frame.id ≡ c.rx_addr)
      (no_fc : pci_type frame ≢ 48) (room : 0 < w.free_bufs) (idle : w.queue ≡ [])
      (wrong : (pci_type frame ≢ 32) ⊎ (bit_and (byte_at frame 0) 15 ≢ c.sn_expected)) where
    abbrev c0 : RecvCtx
    c0 = extended can config b open_ others c

    abbrev w0 : World D
    w0 = one_less can config b open_ others w

    process_cf-wrong :
        (c' : RecvCtx) × (process_cf can config frame c0 w0
          ≡ live (receive_report_error (error_of frame) c') (submit (recv_work c.rx_addr) w0))
        × (c'.rx_addr ≡ c.rx_addr)
        × (c'.buffer ≡ c0.buffer)
    unfolding process_cf error_of
    process_cf-wrong = elim (Bool-cases (pci_type frame == 32)) [
      | inr other ↦ (c0, rw other refl, refl, refl)
      | inl is_cf ↦
          let no_match : (bit_and (byte_at frame 0) 15 == c.sn_expected) ≡ false = elim wrong [
            | inl other ↦ absurd (other (ground arith))
            | inr number ↦ ground (arith, number)
          ] in
          (
            record c0 { timer = some config.cr_timeout; sn_expected = (c.sn_expected + 1) % 16 },
            rw (is_cf, no_match) refl,
            refl,
            refl,
          )
    ]

    -- Where a message is expected to go on, any other frame of its sender but flow control (another type of
    -- frame, or a consecutive one with the wrong number) ends it: the application is told which of the
    -- two, nothing is delivered and nothing sent, and the context and its buffers are free again. For a
    -- bound context with a filter, a buffer, a single context for the sender and no work to do.
    pub arrive-wrong :
        (w' : World D) × (arrive can config (suc fuel) frame (having b others c w)
          ≡ some (record b { receiving = others; world = w' }))
        × GivesUp c.rx_addr (error_of frame) (suc (length c.buffer)) w w'
    unfolding receive_dispatch receive_report_error submit_unless_waiting receive_state_machine
        error_of is_overflow
    arrive-wrong =
        let (c', e, same, buffer) = process_cf-wrong in
        let failing = receive_report_error (error_of frame) c' in
        let wq : World D = record w0 { queue = recv_work c.rx_addr ∷ [] } in
        let w' : World D = record w0 {
          queue = [];
          free_recv = w0.free_recv + 1;
          free_bufs = w0.free_bufs + suc (length c'.buffer);
          failed = w.failed ++ (c'.rx_addr, some (error_of frame)) ∷ [];
        } in
        let no_overflow : is_overflow (some (error_of frame)) ≡ false =
          elim (Bool-cases (pci_type frame == 32)) [
            | inl is_cf ↦ rw (is_cf, error_of, is_overflow) refl
            | inr other ↦ rw (other, error_of, is_overflow) refl
          ] in
        let dispatched : receive_dispatch can config c.state frame c0 w0 ≡ live failing wq =
          ap (λ (s : RxState). receive_dispatch can config s frame c0 w0) waiting
          ∙ ap (λ (r : Run RecvCtx D). r >>= submit_unless_waiting can config) e
          ∙ ap (λ (i : ℕ). live failing (submit (recv_work i) (submit (recv_work c.rx_addr) w0)))
              same
          ∙ ap (live failing) (submit-twice c.rx_addr w0 idle) in
        (
          w',
          arrive-live can config b open_ others (suc fuel) c failing w wq frame absent from
                (ground arith) room same dispatched
              ∙ run_work-freed can config b open_ others (suc fuel) failing wq
                  (subst (λ (i : ℕ). find recv_addr i others ≡ none) (sym same) absent)
                  (ap (λ (i : ℕ). recv_work i ∷ []) (sym same)) w' (rw no_overflow refl),
          record {
            failed = ap (λ (i : ℕ). w.failed ++ (i, some (error_of frame)) ∷ []) same;
            delivered = refl;
            buffers = omega (arith, ap length buffer, length-append c.buffer (c.frag ∷ []));
            free_recv = omega arith;
            free_send = refl;
            frames = refl;
            queue = refl;
          },
        )

  on_err-overflow :
      (c : RecvCtx) (w : World D)
      → c.error ≡ some buffer_overflow
      → (can.can_send (fc_frame can config 2 c) w.driver).0 ≡ queued
      → on_err can config (receive_state_machine can config fuel) c w
        ≡ freed (record w {
          driver = (can.can_send (fc_frame can config 2 c) w.driver).1;
          frames = w.frames ++ fc_frame can config 2 c ∷ [];
          failed = w.failed ++ (c.rx_addr, c.error) ∷ [];
          free_recv = w.free_recv + 1;
          free_bufs = w.free_bufs + suc (length c.buffer);
        })
  unfolding on_err receive_send_fc is_overflow fc_frame
  on_err-overflow c w overflow taken =
      let over : is_overflow c.error ≡ true = ap is_overflow overflow in
      rw (over, taken, receive_send_fc) refl

  -- A frame that cannot be queued, from the state SEND_FC on.
  send_fc-refused :
      (c : RecvCtx) (w : World D)
      → (can.can_send (fc_frame can config 0 c) w.driver).0 ≢ queued
      → on_send_fc can config (receive_state_machine can config (suc fuel)) c w ≡ fault
  unfolding on_send_fc receive_send_fc receive_state_machine is_overflow
  send_fc-refused c w refused =
      elim (SendResult-cases (can.can_send (fc_frame can config 0 c) w.driver).0) [
        | inl sent ↦ absurd (refused sent)
        | inr (inl busy) ↦ rw (busy, receive_send_fc) refl
        | inr (inr broken) ↦ rw (broken, receive_send_fc) refl
      ]

module _ {D : Type 0} (can : Driver D) (config : Config) (documented : Documented can)
    (message : Bytes) (long : can.max_dlen - 2 < length message) (short : length message ≤ 4095)
    (frame : CanFrame) (begins : Begins can message frame) (b : Bound D) (open_ : b.filter ≡ true)
    (idle : b.world.queue ≡ []) (absent : find recv_addr frame.id b.receiving ≡ none)
    (ctxs : 0 < b.world.free_recv) (bufs : 0 < b.world.free_bufs) (fuel : ℕ) where
  -- The work that the first frame of the message submits.
  arrive-begun :
      arrive can config (suc (suc fuel)) frame b
      ≡ commit_recv frame.id
          (having b b.receiving
            (begun can message frame.id)
            (record (taken b.world) { queue = [] }))
          (receive_state_machine can config
            (suc (suc fuel))
            (begun can message frame.id)
            (record (taken b.world) { queue = [] }))
  unfolding arrive new_recv_ctx
  arrive-begun =
      rw
        (
          rx-new can config documented message long short frame begins b open_ idle absent ctxs
              bufs,
          arrive,
        )
        (run_work-one can config b open_ b.receiving (suc (suc fuel)) (begun can message frame.id)
          (record (taken b.world) { queue = recv_work frame.id ∷ [] }) absent refl)

  -- If the first frame of a message arrives that is too large for the buffers of a receiver without blocks, the
  -- application is told so, the receiver tells its sender, and all its contexts and buffers are free again; but the
  -- driver still holds the context for the frame that it sends: the completion of that frame, whether it could be
  -- sent or not, accesses a freed context. For a message of up to 4095 bytes that does not fit into one frame, a
  -- bound context with a filter, a free receive context and a buffer, no context for the sender and no work to do,
  -- and a driver that takes the frame.
  pub overflow-outstanding :
      config.bs ≡ 0
      → config.max_packet_count * (can.max_dlen - 1) + (can.max_dlen - 2) < length message
      → (can.can_send (fc_frame can config 2 (new_recv_ctx frame.id)) b.world.driver).0 ≡ queued
      → (b' : Bound D) × (arrive can config (suc (suc fuel)) frame b ≡ some b')
        × (b'.world.frames ≡ b.world.frames ++ fc_frame can config 2 (new_recv_ctx frame.id) ∷ [])
        × (b'.world.failed ≡ b.world.failed ++ (frame.id, some buffer_overflow) ∷ [])
        × (b'.world.delivered ≡ b.world.delivered)
        × (b'.receiving ≡ b.receiving)
        × (b'.world.free_recv ≡ b.world.free_recv)
        × (b'.world.free_bufs ≡ b.world.free_bufs)
        × ((error : Bool) → fc_done can config error frame.id b' ≡ none)
  unfolding receive_state_machine commit_recv fc_done fc_frame new_recv_ctx receive_report_error
  overflow-outstanding endless large sent =
      let c = begun can message frame.id in
      let failing = receive_report_error buffer_overflow c in
      let w : World D = record (taken b.world) { queue = [] } in
      let final : World D = record w {
        driver = (can.can_send (fc_frame can config 2 failing) w.driver).1;
        frames = w.frames ++ fc_frame can config 2 failing ∷ [];
        failed = w.failed ++ (frame.id, some buffer_overflow) ∷ [];
        free_recv = w.free_recv + 1;
        free_bufs = w.free_bufs + 1;
      } in
      let too_large : (config.bs == 0
            && ltb (config.max_packet_count * (can.max_dlen - 1))
                (length (drop (can.max_dlen - 2) message)))
          ≡ true =
        ground (arith, endless, length-drop (can.max_dlen - 2) message) in
      let freed_ : receive_state_machine can config (suc (suc fuel)) c w ≡ freed final =
        rw (too_large) (on_err-overflow can config fuel failing w refl sent) in
      (
        record b { world = final },
        arrive-begun
            ∙ ap (commit_recv frame.id (having b b.receiving c w)) freed_
            ∙ rw (remove-last recv_addr b.receiving c absent) refl,
        refl,
        refl,
        refl,
        refl,
        omega arith,
        omega arith,
        λ error. rw (absent, fc_done) refl,
      )

  -- If the first frame of a message arrives that the buffers may hold, and the frame that lets the sender go on cannot
  -- be queued, the context is freed, and then written to all the same: a fault. For a message of up to 4095 bytes that
  -- does not fit into one frame, and a bound context with a filter, a free receive context and a buffer, no context
  -- for the sender and no work to do.
  pub refused-faults :
      (0 < config.bs) ⊎ (length message ≤ config.max_packet_count * (can.max_dlen - 1))
      → (can.can_send (fc_frame can config 0 (new_recv_ctx frame.id)) b.world.driver).0 ≢ queued
      → arrive can config (suc (suc fuel)) frame b ≡ none
  unfolding receive_state_machine commit_recv fc_frame new_recv_ctx
  refused-faults granted refused =
      let c = begun can message frame.id in
      let w : World D = record (taken b.world) { queue = [] } in
      let enough : (config.bs == 0
            && ltb (config.max_packet_count * (can.max_dlen - 1))
                (length (drop (can.max_dlen - 2) message)))
          ≡ false =
        ground (arith, granted, length-drop (can.max_dlen - 2) message) in
      let faults : receive_state_machine can config (suc (suc fuel)) c w ≡ fault = rw (enough) (
        send_fc-refused can config fuel
          (record c {
            bs = if config.bs == 0 then c.bs else config.bs;
            wft = 255;
            timer = none;
            state = send_fc;
          })
          w refused) in
      arrive-begun ∙ ap (commit_recv frame.id (having b b.receiving c w)) faults
