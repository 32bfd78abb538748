-- ===== src/Isotp/Bound/Message.antt =====
-- The frames of one message, up to its delivery (src/can/zephyr/isotp/isotp_fast.c).
use thingsetplusplus.Prelude.{
  ℕ, suc, ◌≤◌, ◌<◌, ◌≡◌, refl, sym, ap, ◌∙◌, true, List, [], ◌∷◌, ◌++◌, none, some, length, take,
  drop, length-drop, subst, take-append-drop, append_assoc, append_nil, arith,
}
use thingsetplusplus.Bytes.{Bytes}
use thingsetplusplus.Isotp.{CanFrame, Driver, Config, RecvCtx, World}
use thingsetplusplus.Isotp.Segments.{Documented, AlwaysSends, cut, AreConsecutive}
use thingsetplusplus.Isotp.Receive.Delivery.{Midway}
use thingsetplusplus.Isotp.Bound.{Bound, find, recv_addr}
use thingsetplusplus.Isotp.Bound.Arrival.{arrive_each, having, Kept, Delivers}
use thingsetplusplus.Isotp.Bound.Fragment.{arrive-last, arrive-more}

module _ {D : Type 0} (can : Driver D) (config : Config) (documented : Documented can)
    (sends : AlwaysSends can) (b : Bound D) (open_ : b.filter ≡ true) (others : List RecvCtx)
    (fuel : ℕ) (bs_is_byte : config.bs < 256) where
  Delivers-Kept :
      {c c' : RecvCtx} {w w1 w2 : World D} {m : Bytes}
      → Kept c c' w w1
      → Delivers c'.rx_addr m (suc (length c'.buffer)) w1 w2
      → Delivers c.rx_addr m (suc (length c.buffer)) w w2
  Delivers-Kept {m} k d = record {
    delivered = d.delivered ∙ rw (k.delivered, k.address) refl;
    buffers = omega (arith, d.buffers, k.buffers);
    failed = d.failed ∙ k.failed;
    finished = d.finished ∙ k.finished;
    free_recv = omega (arith, d.free_recv, k.free_recv);
    free_send = omega (arith, d.free_send, k.free_send);
    queue = d.queue;
  }

  whole : (rest : Bytes) → drop (cut can) rest ≡ [] → take (cut can) rest ≡ rest
  whole rest e =
      sym (append_nil (take (cut can) rest))
      ∙ ap (take (cut can) rest ++◌) (sym e)
      ∙ take-append-drop (cut can) rest

  regroup :
      (before rest : Bytes)
      → (before ++ take (cut can) rest) ++ drop (cut can) rest ≡ before ++ rest
  regroup before rest =
      append_assoc before (take (cut can) rest) (drop (cut can) rest)
      ∙ ap (before ++◌) (take-append-drop (cut can) rest)

  -- The consecutive frames of a message, the first of them being number `k`.
  pub arrive_each-consecutive :
      (fs : List CanFrame) (k : ℕ) (before rest : Bytes) (c : RecvCtx) (w : World D)
      → AreConsecutive can c.rx_addr k rest fs
      → 0 < length rest
      → length rest ≤ 4095
      → Midway config k before rest c
      → find recv_addr c.rx_addr others ≡ none
      → length fs ≤ w.free_bufs
      → w.queue ≡ []
      → (w' : World D) × (arrive_each can config (suc fuel) fs (having b others c w)
          ≡ some (record b { receiving = others; world = w' }))
        × Delivers c.rx_addr (before ++ rest) (suc (length c.buffer)) w w'
  unfolding arrive_each
  arrive_each-consecutive [] k before rest c w fs some_left short m absent bufs idle =
      absurd (omega (arith, ap length fs))
  arrive_each-consecutive (f ∷ []) k before rest c w (from, _, next, end) some_left short m absent
        bufs idle =
      let (w', e, d) =
        (arrive-last can config documented sends b open_ others fuel bs_is_byte) k before rest short
          f next c w m absent from (omega arith) idle (ap length end) in
      (
        w',
        rw (e, arrive_each) refl,
        subst (λ (r : Bytes). Delivers c.rx_addr (before ++ r) (suc (length c.buffer)) w w')
            (whole rest end) d,
      )
  arrive_each-consecutive (f ∷ g ∷ gs) k before rest c w (from, _, next, then_) some_left short m
        absent bufs idle =
      let (c1, w1, e, m1, kept) =
        (arrive-more can config documented sends b open_ others fuel bs_is_byte) k before rest short
          f next c w m absent from (omega arith) idle then_.1 in
      let (w', e', d) =
        arrive_each-consecutive (g ∷ gs) (suc k) (before ++ take (cut can) rest)
          (drop (cut can) rest) c1 w1
          (subst (λ (i : ℕ). AreConsecutive can i (suc k) (drop (cut can) rest) (g ∷ gs))
            (sym kept.address) then_)
          then_.1 (omega (arith, length-drop (cut can) rest)) m1
          (subst (λ (i : ℕ). find recv_addr i others ≡ none) (sym kept.address) absent)
          (omega (arith, kept.taken)) kept.queue in
      (
        w',
        rw (e, arrive_each) e',
        subst (λ (r : Bytes). Delivers c.rx_addr r (suc (length c.buffer)) w w')
            (regroup before rest) (Delivers-Kept kept d),
      )
