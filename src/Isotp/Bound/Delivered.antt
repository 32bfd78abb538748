-- ===== src/Isotp/Bound/Delivered.antt =====
-- A message from its first frame to its delivery (src/can/zephyr/isotp/isotp_fast.c).
use thingsetplusplus.Prelude.{
  ℕ, suc, ◌-◌, ◌*◌, ◌≤◌, ◌<◌, ◌≡◌, refl, sym, ap, ◌∙◌, ◌⊎◌, inl, inr, true, false, ◌&&◌, List, [],
  ◌∷◌, ◌++◌, none, some, length, take, drop, subst, Bool-cases, length-drop, take-append-drop, ltb,
  ◌==◌, if◌then◌else◌, arith,
}
use thingsetplusplus.Bytes.{Bytes}
use thingsetplusplus.Isotp.{CanFrame, Driver, Config, RecvCtx, wait_cf, recv_work, World, live}
use thingsetplusplus.Isotp.Segments.{Documented, AlwaysSends, AreConsecutive, Begins, AreSegments}
use thingsetplusplus.Isotp.Receive.{
  received, new_recv_ctx, receive_state_machine, receive_send_fc, fc_frame,
}
use thingsetplusplus.Isotp.Receive.Delivery.{Midway}
use thingsetplusplus.Isotp.Bound.{Bound, find, recv_addr}
use thingsetplusplus.Isotp.Bound.Arrival.{arrive, arrive_each, having, run_work-live}
use thingsetplusplus.Isotp.Bound.Begun.{begun, taken, rx-new}
use thingsetplusplus.Isotp.Bound.Message.{arrive_each-consecutive}

-- Where a message was delivered, and all else is as it was.
pub record OnlyDelivers {D : Type 0} (a : ℕ) (message : Bytes) (b b' : Bound D) : Type 0 where
  pub receiving : b'.receiving ≡ b.receiving
  pub sending : b'.sending ≡ b.sending
  pub delivered : b'.world.delivered ≡ b.world.delivered ++ (a, message) ∷ []
  pub buffers : b'.world.free_bufs ≡ b.world.free_bufs
  pub free_recv : b'.world.free_recv ≡ b.world.free_recv
  pub free_send : b'.world.free_send ≡ b.world.free_send
  pub failed : b'.world.failed ≡ b.world.failed
  pub finished : b'.world.finished ≡ b.world.finished
  pub queue : b'.world.queue ≡ []

module _ {D : Type 0} (can : Driver D) (config : Config) (documented : Documented can)
    (sends : AlwaysSends can) (bs_is_byte : config.bs < 256) (fuel : ℕ) (message : Bytes)
    (long : can.max_dlen - 2 < length message) (short : length message ≤ 4095)
    (granted : (0 < config.bs) ⊎ (length message ≤ config.max_packet_count * (can.max_dlen - 1)))
    (frame : CanFrame) (begins : Begins can message frame) where
  abbrev n : ℕ
  n = can.max_dlen - 2

  module _ (b : Bound D) (open_ : b.filter ≡ true) (idle : b.world.queue ≡ [])
      (absent : find recv_addr frame.id b.receiving ≡ none) (ctxs : 0 < b.world.free_recv)
      (bufs : 0 < b.world.free_bufs) where
    arrive-first :
        (c : RecvCtx) × (w' : World D) × (arrive can config (suc fuel) frame b
          ≡ some (having b b.receiving c w'))
        × Midway config 1 (take n message) (drop n message) c
        × (c.rx_addr ≡ frame.id)
        × (c.buffer ≡ [])
        × (w'.queue ≡ [])
        × (w'.free_bufs ≡ b.world.free_bufs - 1)
        × (w'.free_recv ≡ b.world.free_recv - 1)
        × (w'.delivered ≡ b.world.delivered)
        × (w'.failed ≡ b.world.failed)
        × (w'.finished ≡ b.world.finished)
        × (w'.free_send ≡ b.world.free_send)
    unfolding receive_state_machine received new_recv_ctx arrive
    arrive-first =
        let first =
          rx-new can config documented message long short frame begins b open_ idle absent ctxs
            bufs in
        let fc = fc_frame can config 0 (new_recv_ctx frame.id) in
        let wq : World D = record (taken b.world) { queue = recv_work frame.id ∷ [] } in
        let bs = if config.bs == 0 then 0 else config.bs in
        let c : RecvCtx = record (begun can message frame.id) {
          bs = bs;
          wft = 255;
          state = wait_cf;
          timer = some config.cr_timeout;
          pending_cb = 1;
        } in
        let w' : World D = record (taken b.world) {
          queue = [];
          driver = (can.can_send fc b.world.driver).1;
          frames = b.world.frames ++ fc ∷ [];
        } in
        let enough : (config.bs == 0
              && ltb (config.max_packet_count * (can.max_dlen - 1)) (length (drop n message)))
            ≡ false =
          ground (arith, length-drop n message) in
        let replied : receive_state_machine can config (suc fuel) (begun can message frame.id)
              (record wq { queue = [] })
            ≡ live c w' =
          rw (enough, sends fc b.world.driver, receive_send_fc) refl in
        (
          c,
          w',
          rw (first, arrive)
              (run_work-live can config b open_ b.receiving (suc fuel) (begun can message frame.id)
                wq absent refl c w' replied refl),
          record {
            waiting = refl;
            missing = refl;
            arrived = refl;
            numbered = refl;
            block = elim (Bool-cases (config.bs == 0)) [
              | inl endless ↦ inl (ground arith)
              | inr blocks ↦ inr (ground arith, ground arith)
            ];
          },
          refl,
          refl,
          refl,
          refl,
          refl,
          refl,
          refl,
          refl,
          refl,
        )

    arrive_each-first :
        (fs : List CanFrame)
        → AreConsecutive can frame.id 1 (drop n message) fs
        → length fs < b.world.free_bufs
        → (b' : Bound D) × (arrive_each can config (suc fuel) (frame ∷ fs) b ≡ some b')
          × OnlyDelivers frame.id message b b'
    unfolding arrive_each
    arrive_each-first fs parts enough =
        let (
          c, w, e, m, same, empty, queue, free_bufs, free_recv, delivered, failed, finished,
          free_send,
        ) =
          arrive-first in
        let (w', e', d) =
          arrive_each-consecutive can config documented sends b open_ b.receiving fuel bs_is_byte fs
            1 (take n message) (drop n message) c w
            (subst (λ (i : ℕ). AreConsecutive can i 1 (drop n message) fs) (sym same) parts)
            (omega (arith, length-drop n message)) (omega (arith, length-drop n message)) m
            (subst (λ (i : ℕ). find recv_addr i b.receiving ≡ none) (sym same) absent) (omega arith)
            queue in
        (
          record b { world = w' },
          rw (e, arrive_each) e',
          record {
            receiving = refl;
            sending = refl;
            delivered = d.delivered ∙ rw (delivered, same, take-append-drop n message) refl;
            buffers = omega (arith, d.buffers, free_bufs, ap length empty);
            free_recv = omega (arith, d.free_recv, free_recv);
            free_send = d.free_send ∙ free_send;
            failed = d.failed ∙ failed;
            finished = d.finished ∙ finished;
            queue = d.queue;
          },
        )

module _ {D : Type 0} (can : Driver D) (config : Config) (documented : Documented can)
    (sends : AlwaysSends can) (fuel : ℕ) (b : Bound D) (frames : List CanFrame) (message : Bytes)
    {a : ℕ} (segments : AreSegments can a message frames) where
  -- Whatever the block size, the frames of a message that is too long for one frame, of up to 4095 bytes, lead to its
  -- delivery, once and whole, and all contexts and buffers are free again. For a bound context which has
  -- a filter, a free receive context and a buffer for each frame, no context for the sender and no work
  -- to do; a message that the buffers may hold where there are no blocks; a driver that takes every
  -- frame; and frames of one message, each when the work of the one before has been done.
  pub arrive_each-delivers :
      b.filter ≡ true
      → b.world.queue ≡ []
      → find recv_addr a b.receiving ≡ none
      → 0 < b.world.free_recv
      → length frames ≤ b.world.free_bufs
      → config.bs < 256
      → can.max_dlen - 2 < length message
      → length message ≤ 4095
      → (0 < config.bs) ⊎ (length message ≤ config.max_packet_count * (can.max_dlen - 1))
      → (b' : Bound D) × (arrive_each can config (suc fuel) frames b ≡ some b')
        × OnlyDelivers a message b b'
  arrive_each-delivers open_ idle absent ctxs bufs byte long short granted =
      by_frames frames segments bufs
    where
      by_frames :
          (fs : List CanFrame)
          → AreSegments can a message fs
          → length fs ≤ b.world.free_bufs
          → (b' : Bound D) × (arrive_each can config (suc fuel) fs b ≡ some b')
            × OnlyDelivers a message b b'
      by_frames [] none_of enough = absurd none_of
      by_frames (f ∷ fs) (from, begins, parts) enough =
          subst
            (λ (i : ℕ).
              (b' : Bound D) × (arrive_each can config (suc fuel) (f ∷ fs) b ≡ some b')
              × OnlyDelivers i message b b')
            from
            (arrive_each-first can config documented sends byte fuel message long short granted f
              begins b open_ idle
              (subst (λ (i : ℕ). find recv_addr i b.receiving ≡ none) (sym from) absent) ctxs
              (omega arith) fs
              (subst (λ (i : ℕ). AreConsecutive can i 1 (drop (can.max_dlen - 2) message) fs)
                (sym from) parts)
              (omega arith))
