-- ===== src/Isotp/Send/Rounds.antt =====
-- One run of the sending state machine of src/can/zephyr/isotp/isotp_fast.c, up to the next time that it waits for flow
-- control or for its last frame.
use thingsetplusplus.Prelude.{
  ℕ, zero, suc, ◌+◌, ◌-◌, ◌%◌, ◌≤◌, ◌<◌, ◌≡◌, refl, sym, ap, ◌∙◌, ◌⊎◌, inl, inr, true, false, not,
  ◌&&◌, [], ◌∷◌, ◌++◌, some, length, drop, length-drop, ◌==◌, bit_and, arith, subst, Bool-cases,
}
use thingsetplusplus.Bytes.{Bytes}
use thingsetplusplus.Isotp.{
  CanFrame, queued, Driver, TxState, send_ff, wait_fc, wait_backlog, wait_fin, Config, SendCtx,
  World, Run, live, stuck, ◌>>=◌, byte_at, pci_type,
}
use thingsetplusplus.Isotp.Segments.{Documented, AlwaysSends, cut}
use thingsetplusplus.Isotp.Send.{
  send_loop, after_send_cf, next_state, send_state_machine, send_case, on_send_ff,
  send_can_tx_callback, send_can_rx,
}
use thingsetplusplus.Isotp.Send.Waiting.{InLoop, take_sem-live}
use thingsetplusplus.Isotp.Send.Emission.{send_first-Begins, send_consecutive-Continues}

-- Flow control that lets the sender go on at once.
pub record ClearToSend (cts : CanFrame) : Type 0 where
  pub kind : pci_type cts ≡ 48
  pub status : bit_and (byte_at cts 0) 15 ≡ 0
  pub at_once : byte_at cts 2 ≡ 0

module _ {D : Type 0} (can : Driver D) (config : Config) (fuel : ℕ) (cts : CanFrame) where
  -- What follows the work and the completion of its last frame: the answer of the receiver, or the end.
  unfoldable pub answer :
      (SendCtx → World D → Run SendCtx D) → TxState → SendCtx → World D → Run SendCtx D
  answer more wait_fc c w = send_can_rx can config cts c w >>= more
  answer more wait_fin c w = send_state_machine can config fuel c w
  answer more _ c w = live c w

  -- The work runs, the driver completes the last frame, and where flow control is waited for it arrives.
  unfoldable pub exchange : ℕ → SendCtx → World D → Run SendCtx D
  unfolding answer
  exchange zero c w = stuck
  exchange (suc rounds) c w = send_state_machine can config fuel c w >>= λ c' w'.
      send_can_tx_callback false c' w' >>= λ c'' w''. answer (exchange rounds) c''.state c'' w''

module _ {D : Type 0} (can : Driver D) (config : Config) (documented : Documented can)
    (sends : AlwaysSends can) where
  -- A message of which the next consecutive frames are to be sent at once.
  pub record Sending (c : SendCtx) : Type 0 where
    pub some_left : 0 < length c.source
    pub counted : c.rem_len ≡ length c.source
    pub number : ℕ
    pub numbered : c.sn ≡ number % 16
    pub at_once : c.stmin ≡ 0
    pub blocked : c.sem ≡ 0
    pub backlog : c.backlog ≡ 0

  -- How the loop ends: at the end of a block, with less to send, or at the end of the message.
  abbrev pub Settled : SendCtx → SendCtx → Type 0
  Settled c c' =
      ((c'.state ≡ wait_fc)
        × (length c'.source < length c.source)
        × (0 < length c'.source)
        × (c'.rem_len ≡ length c'.source)
        × ((k : ℕ) × (c'.sn ≡ k % 16)))
      ⊎ ((c'.state ≡ wait_backlog) × (c'.backlog ≡ 1))

  unfoldable pub Settles : SendCtx → World D → Run SendCtx D → Type 0
  Settles c w r =
      (c' : SendCtx) × (w' : World D) × (r ≡ live c' w')
      × (c'.tx_addr ≡ c.tx_addr)
      × (w'.finished ≡ w.finished)
      × Settled c c'

  abbrev ahead : SendCtx → SendCtx
  ahead c = record c {
    rem_len = length (drop (cut can) c.source);
    source = drop (cut can) c.source;
    pending_cb = c.pending_cb + 1;
    sn = (c.sn + 1) % 16;
    bs = (c.bs + 255) % 256;
    backlog = (c.backlog + 1) % 256;
  }

  -- What the loop does behind a frame that was queued.
  after-Settles :
      (loop : SendCtx → World D → Run SendCtx D) (c : SendCtx) (w : World D)
      → InLoop c.state
      → Sending c
      → ((c' : SendCtx) (w' : World D)
          → length c'.source < length c.source
          → InLoop c'.state
          → Sending c'
          → Settles c' w' (loop c' w'))
      → Settles c w (after_send_cf can config loop (queued, ahead c, w))
  unfolding after_send_cf next_state Settles
  after-Settles loop c w at s go =
      let shorter : length (drop (cut can) c.source) < length c.source =
        ground (arith, s.some_left, documented.some_room, length-drop (cut can) c.source) in
      elim (Bool-cases (length (drop (cut can) c.source) == 0)) [
        | inl done ↦ (
          record (ahead c) { state = wait_backlog },
          w,
          rw (done, after_send_cf) refl,
          refl,
          refl,
          inr (refl, ground (arith, s.backlog)),
        )
        | inr more ↦ elim (Bool-cases (not (config.bs == 0) && (c.bs + 255) % 256 == 0)) [
          | inl complete ↦ (
            record (ahead c) { timer = some config.bs_timeout; state = wait_fc },
            w,
            rw (more, complete, after_send_cf) refl,
            refl,
            refl,
            inl (refl, shorter, ground arith, refl, (suc s.number, ground (arith, s.numbered))),
          )
          | inr goes_on ↦
              let at_once : (c.stmin == 0) ≡ true = ground (arith, s.at_once) in
              let (c1, w1, taken, waited, backlog, frames, told1) =
                take_sem-live can config (ahead c) w at in
              let (c', w', e, from, told, settled) =
                go c1 w1 (nearly waited.source shorter) waited.in_loop (record {
                  some_left = ground (arith, ap length waited.source);
                  counted = waited.rem_len ∙ ap length (sym waited.source);
                  number = suc s.number;
                  numbered = waited.sn ∙ ground (arith, s.numbered);
                  at_once = waited.stmin ∙ s.at_once;
                  blocked = waited.blocked s.blocked;
                  backlog = backlog s.blocked ∙ ground (arith, s.backlog);
                }) in
              (
                c',
                w',
                rw (more, goes_on, at_once, after_send_cf, taken) e,
                from ∙ waited.address,
                told ∙ told1,
                nearer c c1 c' (nearly waited.source shorter) settled,
              )
        ]
      ]
    where
      nearly : {xs ys : Bytes} {n : ℕ} → ys ≡ xs → length xs < n → length ys < n
      nearly e h = rw e h

      nearer :
          (c c1 c' : SendCtx) → length c1.source < length c.source → Settled c1 c' → Settled c c'
      nearer c c1 c' shorter (inl (state, less, some_left, counted, numbered)) =
          inl (state, omega arith, some_left, counted, numbered)
      nearer c c1 c' shorter (inr end) = inr end

  pub loop-Settles :
      (fuel : ℕ) (c : SendCtx) (w : World D)
      → length c.source < fuel
      → InLoop c.state
      → Sending c
      → Settles c w (send_loop can config fuel c w)
  unfolding send_loop Settles
  loop-Settles zero c w enough at s = elim enough [ ]
  loop-Settles (suc fuel) c w enough at s =
      let (f, id, next, e) =
        send_consecutive-Continues can config documented sends s.number c.source c w refl s.counted
          s.numbered in
      let sent : World D = record w {
        driver = (can.can_send f w.driver).1;
        frames = w.frames ++ f ∷ [];
      } in
      subst (Settles c w) (sym (ap (after_send_cf can config (send_loop can config fuel)) e)) (
        after-Settles (send_loop can config fuel) c sent at s
          (λ c' w' shorter at' s'. loop-Settles fuel c' w' (omega arith) at' s'))

  -- A run of the work: the first frame, or the loop.
  pub first-Settles :
      (message : Bytes) (fuel : ℕ) (c : SendCtx) (w : World D)
      → can.max_dlen - 2 < length message
      → length message ≤ 4095
      → c.state ≡ send_ff
      → c.source ≡ message
      → c.rem_len ≡ length message
      → Settles c w (send_state_machine can config fuel c w)
  unfolding send_state_machine send_case on_send_ff Settles
  first-Settles message fuel c w long short state all counted =
      let (f, id, begins, e) =
        send_first-Begins can config documented sends message long short c w all counted in
      let rest = drop (can.max_dlen - 2) message in
      let c' : SendCtx = record c {
        sn = 1;
        rem_len = length rest;
        source = rest;
        pending_cb = c.pending_cb + 1;
        timer = some config.bs_timeout;
        state = wait_fc;
      } in
      let w' : World D = record w {
        driver = (can.can_send f w.driver).1;
        frames = w.frames ++ f ∷ [];
      } in
      let gone = length-drop (can.max_dlen - 2) message in
      (
        c',
        w',
        ap (λ (s : TxState). send_case can config s fuel c w) state ∙ rw (e, on_send_ff) refl,
        refl,
        refl,
        inl (
          refl,
          omega (arith, gone, documented.some_room, ap length all),
          omega (arith, gone),
          refl,
          (1, refl),
        ),
      )
