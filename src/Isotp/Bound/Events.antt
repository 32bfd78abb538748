-- ===== src/Isotp/Bound/Events.antt =====
-- Everything that can happen to a bound context (src/can/zephyr/isotp/isotp_fast.c), in any order.
use thingsetplusplus.Prelude.{
  ℕ, ◌+◌, ◌≡◌, refl, sym, inl, inr, Bool, true, false, not, ◌&&◌, List, [], ◌∷◌, ◌++◌, Option, none,
  some, length, ltb, ◌==◌, if◌then◌else◌, arith, Bool-cases, subst,
}
use thingsetplusplus.Bytes.{Bytes}
use thingsetplusplus.Isotp.{Driver, Config, RecvCtx, SendCtx, World}
use thingsetplusplus.Isotp.Receive.{submit, receive_report_error, receive_timeout_handler}
use thingsetplusplus.Isotp.Receive.Keeps.{
  RecvKeeps, receive_timeout_handler-Keeps, SendResult-cases,
}
use thingsetplusplus.Isotp.Send.{send_can_tx_callback, send_timeout_handler, prepare_frame}
use thingsetplusplus.Isotp.Send.Keeps.{send_can_tx_callback-Keeps, send_timeout_handler-Keeps}
use thingsetplusplus.Isotp.Bound.Balance.{
  total-put, total-remove, find-address, one, Balanced, BalancedAfter,
}
use thingsetplusplus.Isotp.Calls.{
  single_done, sent_single_cb, send_single, send_multiple, isotp_fast_send, is_send_ff, sf_header,
  send_on, is_single,
}
use thingsetplusplus.Isotp.Bound.{
  Bound, find, remove, send_addr, Lookup, got, no_context, no_ctx_left, no_buf_left, get_send_ctx,
  run_work, recv_expired, send_expired, receive_can_tx, fc_done, frame_done,
}
use thingsetplusplus.Isotp.Bound.Handlers.{
  BusEvent, frame_arrives, work_runs, recv_timer_expires, send_timer_expires, fc_completes,
  frame_completes, single_completes, application_sends, on_event, and_then, on_events, SendFound,
  get_send_ctx-Balanced, can_rx_callback-Balanced, run_next-Balanced, on_recv-Balanced,
  on_send-Balanced,
}

module _ {D : Type 0} (can : Driver D) (config : Config) (fuel recvs sends bufs : ℕ) where
  if-Balanced :
      (test : Bool) (b b' : Bound D)
      → Balanced recvs sends bufs b
      → Balanced recvs sends bufs b'
      → Balanced recvs sends bufs (if test then b else b')
  if-Balanced true b b' h h' = h
  if-Balanced false b b' h h' = h'

  send_single-Balanced :
      (message : Bytes) (a : ℕ) (c : SendCtx) (b : Bound D)
      → Balanced recvs sends bufs b
      → find send_addr a b.sending ≡ some c
      → Balanced recvs sends bufs (send_single can config message c b).1
  unfolding send_single
  send_single-Balanced message a c b h there =
      let here : find send_addr c.tx_addr b.sending ≡ some c =
        subst (λ (i : ℕ). find send_addr i b.sending ≡ some c)
          (sym (find-address send_addr a b.sending c there)) there in
      let header = sf_header can config (length message) in
      let frame =
        prepare_frame can config c.tx_addr (can.bytes_to_dlc (length message + length header))
          (header ++ message) in
      let again_kept : Balanced recvs sends bufs
          (record b { world = record b.world { driver = (can.can_send frame b.world.driver).1 } }) =
        record { recv_slab = h.recv_slab; send_slab = h.send_slab; pool = h.pool } in
      let again_freed : Balanced recvs sends bufs (record b {
        sending = remove send_addr c.tx_addr b.sending;
        world = record b.world {
          driver = (can.can_send frame b.world.driver).1;
          free_send = b.world.free_send + 1;
        };
      }) =
        record {
          recv_slab = h.recv_slab;
          send_slab =
              omega (arith, h.send_slab, total-remove send_addr one b.sending c c.tx_addr here);
          pool = h.pool;
        } in
      let unsent =
        if-Balanced (is_send_ff can config c.state && c.pending_cb == 0) _ _ again_freed
          again_kept in
      elim (SendResult-cases (can.can_send frame b.world.driver).0) [
        | inl sent ↦
            rw (sent, send_single)
              (record {
                recv_slab = h.recv_slab;
                send_slab = omega (
                  arith,
                  h.send_slab,
                  total-put send_addr one b.sending c (record c { pending_cb = c.pending_cb + 1 })
                      here,
                );
                pool = h.pool;
              })
        | inr (inl busy) ↦ rw (busy, send_single) unsent
        | inr (inr broken) ↦ rw (broken, send_single) unsent
      ]

  send_multiple-Balanced :
      (message : Bytes) (a : ℕ) (c : SendCtx) (b : Bound D)
      → Balanced recvs sends bufs b
      → find send_addr a b.sending ≡ some c
      → Balanced recvs sends bufs (send_multiple can config message c b).1
  unfolding send_multiple submit
  send_multiple-Balanced message a c b h there = record {
    recv_slab = h.recv_slab;
    send_slab = omega (
      arith,
      h.send_slab,
      total-put send_addr one b.sending c (record c { source = message; rem_len = length message })
          (subst (λ (i : ℕ). find send_addr i b.sending ≡ some c)
            (sym (find-address send_addr a b.sending c there)) there),
    );
    pool = h.pool;
  }

  send_on-Balanced :
      (message : Bytes) (a : ℕ) (b : Bound D) (h : Balanced recvs sends bufs b)
      (r : Lookup SendCtx × Bound D)
      → SendFound can config fuel recvs sends bufs b h a r
      → Balanced recvs sends bufs (send_on can config message r).1
  unfolding send_on
  send_on-Balanced message a b h (got c, b') (balanced, there) =
      elim (Bool-cases (is_single can config message)) [
        | inl single ↦ rw single (send_single-Balanced message a c b' balanced there)
        | inr long ↦ rw long (send_multiple-Balanced message a c b' balanced there)
      ]
  send_on-Balanced message a b h (no_context, b') balanced = balanced
  send_on-Balanced message a b h (no_ctx_left, b') balanced = balanced
  send_on-Balanced message a b h (no_buf_left, b') balanced = balanced

  isotp_fast_send-Balanced :
      (message : Bytes) (a : ℕ) (b : Bound D)
      → Balanced recvs sends bufs b
      → Balanced recvs sends bufs (isotp_fast_send can config message a b).1
  unfolding isotp_fast_send
  isotp_fast_send-Balanced message a b h =
      elim (Bool-cases (not (is_single can config message) && ltb 4095 (length message))) [
        | inl over ↦ rw over h
        | inr fits ↦ rw fits (
            send_on-Balanced message a b h (get_send_ctx can config a true b)
              (get_send_ctx-Balanced can config fuel recvs sends bufs b h a true))
      ]

  on_event-Balanced :
      (e : BusEvent) (b : Bound D)
      → Balanced recvs sends bufs b
      → BalancedAfter recvs sends bufs (on_event can config fuel e b)
  unfolding on_event run_work recv_expired send_expired fc_done receive_can_tx frame_done
      single_done sent_single_cb receive_report_error submit
  on_event-Balanced (frame_arrives frame) b h =
      can_rx_callback-Balanced can config fuel recvs sends bufs b h frame
  on_event-Balanced work_runs b h =
      run_next-Balanced can config fuel recvs sends bufs b.world.queue b h
  on_event-Balanced (recv_timer_expires a) b h =
      (on_recv-Balanced can config fuel recvs sends bufs) a
        (λ c w. receive_timeout_handler (record c { timer = none }) w) b h
        (λ c. receive_timeout_handler-Keeps can config (record c { timer = none }) b.world)
  on_event-Balanced (send_timer_expires a) b h =
      (on_send-Balanced can config fuel recvs sends bufs) a
        (λ c w. send_timeout_handler can config (record c { timer = none }) w) b h
        (λ c. send_timeout_handler-Keeps can config (record c { timer = none }) b.world)
  on_event-Balanced (fc_completes error a) b h =
      (on_recv-Balanced can config fuel recvs sends bufs) a (receive_can_tx can config error) b h
        (λ c. completed error c b.world)
    where
      completed :
          (error : Bool) (c : RecvCtx) (w : World D)
          → RecvKeeps c w (receive_can_tx can config error c w)
      completed true c w = (refl, refl, refl, refl)
      completed false c w = (refl, refl, refl, refl)
  on_event-Balanced (frame_completes error a) b h =
      (on_send-Balanced can config fuel recvs sends bufs) a (send_can_tx_callback error) b h
        (λ c. send_can_tx_callback-Keeps error c b.world)
  on_event-Balanced (single_completes error a) b h =
      (on_send-Balanced can config fuel recvs sends bufs) a (sent_single_cb can config error) b h
        (λ c. (omega arith, refl, refl))
  on_event-Balanced (application_sends message a) b h = isotp_fast_send-Balanced message a b h

  and_then-Balanced :
      (f : Bound D → Option (Bound D)) (o : Option (Bound D))
      → ((b : Bound D) → Balanced recvs sends bufs b → BalancedAfter recvs sends bufs (f b))
      → BalancedAfter recvs sends bufs o
      → BalancedAfter recvs sends bufs (and_then can config fuel f o)
  unfolding and_then
  and_then-Balanced f none keep h = tt
  and_then-Balanced f (some b) keep h = keep b h

  -- Whatever happens to a bound context, in any order and however often: frames with any content that
  -- arrive, work that runs, timers, frames that the driver has sent or not, messages that the application
  -- sends, and a driver that takes a frame or does not. No context and no buffer gets lost or is counted
  -- twice: as long as no freed context is touched, the free and the used entries of both slabs and of the
  -- buffer pool make up what they held at first. While the sending loop waits for
  -- the driver, any flow control for the message may arrive before a frame completes, and nothing else happens.
  pub on_events-Balanced :
      (es : List BusEvent) (b : Bound D)
      → Balanced recvs sends bufs b
      → BalancedAfter recvs sends bufs (on_events can config fuel es b)
  unfolding on_events
  on_events-Balanced [] b h = h
  on_events-Balanced (e ∷ es) b h =
      and_then-Balanced (on_events can config fuel es) (on_event can config fuel e b)
        (λ b' h'. on_events-Balanced es b' h') (on_event-Balanced e b h)
