-- ===== src/Isotp/Send/Loop.antt =====
-- The loop of src/can/zephyr/isotp/isotp_fast.c that sends consecutive frames, and what is known of the
-- message in it.
use thingsetplusplus.Prelude.{
  ℕ, zero, suc, ◌+◌, ◌-◌, ◌%◌, ◌≤◌, ◌<◌, ◌≡◌, refl, sym, ap, ◌∙◌, not, ◌&&◌, List, [], ◌∷◌, ◌++◌,
  Option, length, drop, length-drop, append_assoc, ◌==◌, arith, subst, inl, inr, Bool-cases,
}
use thingsetplusplus.Bytes.{Bytes}
use thingsetplusplus.Isotp.{CanFrame, queued, Driver, IsotpError, Config, SendCtx, World, Run}
use thingsetplusplus.Isotp.Segments.{Documented, AlwaysSends, cut}
use thingsetplusplus.Isotp.Send.{send_loop, after_send_cf, next_state, send_consecutive, count_cf}
use thingsetplusplus.Isotp.Send.Emission.{Chain-snoc, send_consecutive-Continues}
use thingsetplusplus.Isotp.Send.Progress.{Partly, Good, Waited-Partly, moved}
use thingsetplusplus.Isotp.Send.Waiting.{InLoop, take_sem-live}

module _ {D : Type 0} (can : Driver D) (config : Config) (documented : Documented can)
    (sends : AlwaysSends can) (a : ℕ) (message : Bytes) (long : can.max_dlen - 2 < length message)
    (short : length message ≤ 4095) (old : List CanFrame)
    (reported : List (ℕ × Option IsotpError)) where
  -- The context behind the frame that the loop sends next.
  abbrev ahead : SendCtx → SendCtx
  ahead c = record c {
    rem_len = length (drop (cut can) c.source);
    source = drop (cut can) c.source;
    pending_cb = c.pending_cb + 1;
    sn = (c.sn + 1) % 16;
    bs = (c.bs + 255) % 256;
    backlog = (c.backlog + 1) % 256;
  }

  grow :
      (c : SendCtx) (w : World D)
      → c.tx_addr ≡ a
      → Partly can config documented sends a message long short old reported c w.frames
      → 0 < length c.source
      → (f : CanFrame) × (send_consecutive can config c w ≡ (
        queued,
        ahead c,
        record w { driver = (can.can_send f w.driver).1; frames = w.frames ++ f ∷ [] },
      ))
        × Partly can config documented sends a message long short old reported
            (ahead c)
            (w.frames ++ f ∷ [])
  unfolding count_cf
  grow c w from p some_left =
      let (f, id, next, e) =
        send_consecutive-Continues can config documented sends p.count c.source c w refl p.missing
          p.numbered in
      (
        f,
        e,
        record {
          head = p.head;
          tail = p.tail ++ f ∷ [];
          count = suc p.count;
          are = ap (◌++ f ∷ []) p.are ∙ append_assoc old (p.head ∷ p.tail) (f ∷ []);
          from = p.from;
          begins = p.begins;
          chain = Chain-snoc can a 1 _ p.tail p.count c.source f p.chain (id ∙ from) some_left next;
          missing = refl;
          numbered = ground (arith, p.numbered);
          bound = omega (arith, p.bound, length-drop (cut can) c.source);
        },
      )

  nil_of_length : (xs : Bytes) → length xs ≡ 0 → xs ≡ []
  nil_of_length [] h = refl
  nil_of_length (x ∷ xs) h = absurd (omega arith)

  after_frame :
      (loop : SendCtx → World D → Run SendCtx D) (c : SendCtx) (w : World D)
      → c.tx_addr ≡ a
      → w.finished ≡ reported
      → InLoop c.state
      → Partly can config documented sends a message long short old reported c w.frames
      → ((c' : SendCtx) (w' : World D)
          → c'.source ≡ c.source
          → c'.tx_addr ≡ a
          → w'.finished ≡ reported
          → InLoop c'.state
          → Partly can config documented sends a message long short old reported c' w'.frames
          → 0 < length c'.source
          → Good can config documented sends a message long short old reported (loop c' w'))
      → Good can config documented sends a message long short old reported
          (after_send_cf can config loop (queued, c, w))
  unfolding after_send_cf next_state
  after_frame loop c w from told state partly go = elim (Bool-cases (c.rem_len == 0)) [
    | inl done ↦
        rw (done, after_send_cf)
          (
            from,
            told,
            (
              moved can config documented sends a message long short old reported partly,
              nil_of_length _ (ground (arith, partly.missing)),
            ),
          )
    | inr more ↦ elim (Bool-cases (not (config.bs == 0) && c.bs == 0)) [
      | inl complete ↦
          rw (more, after_send_cf, complete)
            (
              from,
              told,
              (
                moved can config documented sends a message long short old reported partly,
                ground (arith, partly.missing),
              ),
            )
      | inr goes_on ↦ elim (Bool-cases (c.stmin == 0)) [
        | inr spaced ↦
            rw (more, after_send_cf, goes_on, spaced)
              (
                from,
                told,
                (
                  moved can config documented sends a message long short old reported partly,
                  ground (arith, partly.missing),
                ),
              )
        | inl at_once ↦
            let (c', w', taken, waited, backlog, frames, finished) =
              take_sem-live can config c w state in
            rw (more, after_send_cf, goes_on, at_once, taken)
              (go c' w' waited.source (waited.address ∙ from) (finished ∙ told) waited.in_loop
                (subst (Partly can config documented sends a message long short old reported c')
                  (sym frames)
                  (Waited-Partly can config documented sends a message long short old reported
                    waited partly))
                (rw waited.source (ground (arith, partly.missing))))
      ]
    ]
  ]

  pub loop-Good :
      (fuel : ℕ) (c : SendCtx) (w : World D)
      → length c.source < fuel
      → c.tx_addr ≡ a
      → w.finished ≡ reported
      → InLoop c.state
      → Partly can config documented sends a message long short old reported c w.frames
      → 0 < length c.source
      → Good can config documented sends a message long short old reported
          (send_loop can config fuel c w)
  unfolding send_loop
  loop-Good zero c w enough from told state partly some_left = elim enough [ ]
  loop-Good (suc fuel) c w enough from told state partly some_left =
      let (f, e, partly') = grow c w from partly some_left in
      let sent : World D = record w {
        driver = (can.can_send f w.driver).1;
        frames = w.frames ++ f ∷ [];
      } in
      subst
        (λ r.
          (Good can config documented sends a message long short old reported)
            (after_send_cf can config (send_loop can config fuel) r))
        (sym e)
        (after_frame (send_loop can config fuel) (ahead c) sent from told state partly'
          (λ c' w' source from' told' state' p pos.
            loop-Good fuel c' w' (omega (arith, ap length source, length-drop (cut can) c.source))
              from' told' state' p pos))
