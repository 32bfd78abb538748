-- ===== src/Isotp/Carried.antt =====
-- A message from one end to the other over ISO-TP (src/can/zephyr/isotp/isotp_fast.c): the sending side, and the
-- receiving side that gets its frames.
use thingsetplusplus.Prelude.{
  ℕ, suc, ◌+◌, ◌-◌, ◌*◌, ◌≤◌, ◌<◌, ◌≡◌, refl, sym, ap, ◌∙◌, ◌⊎◌, inl, inr, true, List, [], ◌∷◌,
  length-append, arith, ◌++◌, Option, none, some, length, subst,
}
use thingsetplusplus.Bytes.{Bytes}
use thingsetplusplus.Isotp.{CanFrame, Driver, Config, IsotpError, SendCtx, send_ff, World, freed}
use thingsetplusplus.Isotp.Segments.{Documented, AlwaysSends}
use thingsetplusplus.Isotp.Send.Whole.{steps-Good}
use thingsetplusplus.Isotp.Send.Progress.{SendEvent, send_steps, Good}
use thingsetplusplus.Isotp.Bound.{Bound, find, recv_addr}
use thingsetplusplus.Isotp.Bound.Arrival.{arrive_each}
use thingsetplusplus.Isotp.Bound.Delivered.{OnlyDelivers, arrive_each-delivers}

module _ {D : Type 0} (can : Driver D) (config : Config) (documented : Documented can)
    (sends : AlwaysSends can) (message : Bytes) (long : can.max_dlen - 2 < length message)
    (short : length message ≤ 4095) where
  -- The sending context of a message that has not begun.
  pub record Ready (a : ℕ) (c : SendCtx) : Type 0 where
    pub address : c.tx_addr ≡ a
    pub state : c.state ≡ send_ff
    pub source : c.source ≡ message
    pub rem_len : c.rem_len ≡ length message

  -- Whatever happens to the context of a message until it is freed (frames of flow control with any content,
  -- completed frames, expired timers, runs of the work, in any order and number), no run faults or takes
  -- more steps than it has, and when the context is freed the application was told exactly one result: an
  -- error, or success, and then the frames that were queued since are those of the whole message, in
  -- order. Nothing is said of what happens to the context after that, as the completion of a frame that was
  -- still outstanding. For a message of up to 4095 bytes that does not fit into one frame, and a driver that
  -- takes every frame. While the sending loop waits for
  -- the driver, any flow control for the message may arrive before a frame completes, and nothing else happens.
  pub send_steps-whole :
      (fuel : ℕ) (es : List SendEvent) {a : ℕ} (c : SendCtx) (w : World D)
      → 4095 < fuel
      → Ready a c
      → Good can config documented sends a message long short w.frames w.finished
          (send_steps can config fuel es c w)
  send_steps-whole fuel es {a} c w enough ready =
      steps-Good can config documented sends a message long short w.frames w.finished fuel es c w
        enough (ready.address, refl, rw ready.state (refl, ready.source, ready.rem_len))

  last_of : {A : Type 0} (xs : List A) {y z : A} → xs ++ y ∷ [] ≡ xs ++ z ∷ [] → y ≡ z
  last_of [] e = cc
  last_of (x ∷ xs) e = last_of xs (cc)

  -- Once the sender has told its application that a message was sent, the frames that it queued for it, when they
  -- arrive one by one at a receiver, lead there to the delivery of this message, once and whole, and leave
  -- the receiver's contexts and buffers free: whatever had happened to the sender, and whatever block sizes
  -- and separation times the two ask for. For a receiver on the same bus which has a filter, a free receive
  -- context, a buffer for each frame, no context for the sender's address and no work to do, and which
  -- sends flow control in blocks or has buffers for the message; and for a driver that takes every frame.
  -- While the sending loop waits for
  -- the driver, any flow control for the message may arrive before a frame completes, and nothing else happens.
  pub carried :
      (fuel depth : ℕ) (es : List SendEvent) {a : ℕ} (c : SendCtx) (w w' : World D)
      (config' : Config) (b : Bound D)
      → 4095 < fuel
      → Ready a c
      → send_steps can config fuel es c w ≡ freed w'
      → w'.finished ≡ w.finished ++ (a, none) ∷ []
      → b.filter ≡ true
      → b.world.queue ≡ []
      → find recv_addr a b.receiving ≡ none
      → 0 < b.world.free_recv
      → length w'.frames ≤ length w.frames + b.world.free_bufs
      → config'.bs < 256
      → (0 < config'.bs) ⊎ (length message ≤ config'.max_packet_count * (can.max_dlen - 1))
      → (frames : List CanFrame) × (b' : Bound D) × (w'.frames ≡ w.frames ++ frames)
        × (arrive_each can config' (suc depth) frames b ≡ some b')
        × OnlyDelivers a message b b'
  carried fuel depth es {a} c w w' config' b enough ready ends success open_ idle absent ctxs bufs
        byte granted =
      elim (subst (Good can config documented sends a message long short w.frames w.finished) ends
        (send_steps-whole fuel es c w enough ready)) [
          | inl (e, failed) ↦ absurd (some_ne_none (last_of w.finished (sym failed ∙ success)))
          | inr (frames, told, queued_, segments) ↦
              let (b', arrived, delivers) =
                arrive_each-delivers can config' documented sends depth b frames message segments
                  open_ idle absent ctxs
                  (omega (arith, ap length queued_, length-append w.frames frames)) byte long short
                  granted in
              (frames, b', queued_, arrived, delivers)
        ]
    where
      some_ne_none : {e : IsotpError} → ◌≡◌ {A = ℕ × Option IsotpError} (a, some e) (a, none) → ⊥
      some_ne_none h = cc
