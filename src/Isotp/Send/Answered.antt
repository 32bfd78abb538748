-- ===== src/Isotp/Send/Answered.antt =====
-- A message whose receiver answers (src/can/zephyr/isotp/isotp_fast.c): the sending side comes to an end.
use thingsetplusplus.Prelude.{
  ℕ, zero, suc, ◌+◌, ◌-◌, ◌%◌, ◌≤◌, ◌<◌, ◌≡◌, refl, sym, ap, ◌∙◌, inl, inr, true, false, [], ◌∷◌,
  ◌++◌, none, length, ltb, ◌==◌, if◌then◌else◌, bit_and, arith, subst,
}
use thingsetplusplus.Bytes.{Bytes}
use thingsetplusplus.Isotp.{
  CanFrame, Driver, TxState, send_ff, wait_fc, send_cf, wait_backlog, Config, SendCtx, World, Run,
  freed, ◌>>=◌, byte_at, pci_type, send_work, unexp_pdu,
}
use thingsetplusplus.Isotp.Segments.{Documented, AlwaysSends}
use thingsetplusplus.Isotp.Receive.{submit}
use thingsetplusplus.Isotp.Send.{
  send_state_machine, send_case, on_tx_end, send_can_tx_callback, after_tx, send_can_rx,
  send_process_fc, send_report_error, is_wait_fc, free_send_ctx,
}
use thingsetplusplus.Isotp.Send.Rounds.{
  ClearToSend, answer, exchange, Sending, Settled, Settles, loop-Settles, first-Settles,
}

module _ {D : Type 0} (can : Driver D) (config : Config) (documented : Documented can)
    (sends : AlwaysSends can) where
  Finishes : SendCtx → World D → Run SendCtx D → Type 0
  Finishes c w r =
      (w' : World D) × (r ≡ freed w') × (w'.finished ≡ w.finished ++ (c.tx_addr, none) ∷ [])

  module _ (fuel : ℕ) (cts : CanFrame) (clear : ClearToSend cts) where
    -- The context as the answer finds it, and as it leaves it.
    answered : SendCtx → SendCtx
    answered c = record c {
      pending_cb = c.pending_cb - 1;
      timer = none;
      state = send_cf;
      wft = 0;
      backlog = 0;
      sem = 0;
      bs = byte_at cts 1;
      stmin = byte_at cts 2;
    }

    goes_on :
        (more : SendCtx → World D → Run SendCtx D) (c : SendCtx) (w : World D)
        → c.state ≡ wait_fc
        → (w' : World D) × (w'.finished ≡ w.finished)
          × ((send_can_tx_callback false c w >>= λ c' w'.
                answer can config fuel cts more c'.state c' w')
              ≡ more (answered c) w')
    unfolding send_can_tx_callback after_tx answer send_can_rx send_process_fc is_wait_fc submit
        answered
    goes_on more c w state =
        let ticked : SendCtx = record c {
          pending_cb = c.pending_cb - 1;
          backlog = (c.backlog + 255) % 256;
          sem = 1;
        } in
        let is_fc : (pci_type cts == 48) ≡ true = rw clear.kind refl in
        let goes : (bit_and (byte_at cts 0) 15 == 0) ≡ true = rw clear.status refl in
        let w1 = submit (send_work c.tx_addr) w in
        let processed = send_process_fc can config cts (record ticked { timer = none }) in
        let refused = send_report_error unexp_pdu ticked in
        let w2 = submit (send_work c.tx_addr) w1 in
        let cleared : processed ≡ answered c = rw (is_fc, goes) refl in
        let by_answer : TxState → Run SendCtx D =
          λ s. answer can config fuel cts more s ticked w1 in
        (
          submit (send_work c.tx_addr) w1,
          refl,
          ap
                (λ (s : TxState).
                  after_tx s ticked w >>= λ c' w'. answer can config fuel cts more c'.state c' w')
                state
              ∙ ap by_answer state
              ∙ ap
                  (λ (s : TxState).
                    more (if is_wait_fc can config s then processed else refused) w2)
                  state
              ∙ ap (λ (x : SendCtx). more x w2) cleared,
        )

    ends :
        (more : SendCtx → World D → Run SendCtx D) (c : SendCtx) (w : World D)
        → c.state ≡ wait_backlog
        → c.backlog ≡ 1
        → Finishes c w (
            send_can_tx_callback false c w >>= λ c' w'.
            answer can config fuel cts more c'.state c' w')
    unfolding send_can_tx_callback after_tx answer send_state_machine send_case on_tx_end
        free_send_ctx submit Finishes
    ends more c w state backlog =
        let ticked : SendCtx = record c {
          pending_cb = c.pending_cb - 1;
          backlog = (c.backlog + 255) % 256;
          sem = 1;
        } in
        let none_left : ltb 0 ((c.backlog + 255) % 256) ≡ false = ground (arith, backlog) in
        let w1 = submit (send_work c.tx_addr) w in
        (
          record w1 {
            free_send = w1.free_send + 1;
            finished = w1.finished ++ (c.tx_addr, none) ∷ [];
          },
          ap
                (λ (s : TxState).
                  after_tx s ticked w >>= λ c' w'. answer can config fuel cts more c'.state c' w')
                state
              ∙ rw (none_left, after_tx) refl,
          refl,
        )

    -- The rounds suffice where they are more than the bytes that are left.
    Settled-Finishes :
        (rounds : ℕ) (c0 c : SendCtx) (w : World D)
        → length c0.source < suc rounds
        → ((c' : SendCtx) (w' : World D)
            → length c'.source < rounds
            → length c'.source ≤ 4095
            → c'.state ≡ send_cf
            → Sending can config documented sends c'
            → Finishes c' w' (exchange can config fuel cts rounds c' w'))
        → length c0.source ≤ 4095
        → Settled can config documented sends c0 c
        → Finishes c w (
            send_can_tx_callback false c w >>= λ c' w'.
            answer can config fuel cts (exchange can config fuel cts rounds) c'.state c' w')
    unfolding Finishes answered
    Settled-Finishes rounds c0 c w enough go bound
          (inl (state, less, some_left, counted, (k, numbered))) =
        let (w', told, e) = goes_on (exchange can config fuel cts rounds) c w state in
        let (w'', e', told') = go (answered c) w' (omega arith) (omega arith) refl (record {
          some_left = some_left;
          counted = counted;
          number = k;
          numbered = numbered;
          at_once = clear.at_once;
          blocked = refl;
          backlog = refl;
        }) in
        (w'', e ∙ e', told' ∙ ap (◌++ (c.tx_addr, none) ∷ []) told)
    Settled-Finishes rounds c0 c w enough go bound (inr (state, backlog)) =
        ends (exchange can config fuel cts rounds) c w state backlog

    round-Finishes :
        (rounds : ℕ) (c : SendCtx) (w : World D)
        → length c.source < suc rounds
        → ((c' : SendCtx) (w' : World D)
            → length c'.source < rounds
            → length c'.source ≤ 4095
            → c'.state ≡ send_cf
            → Sending can config documented sends c'
            → Finishes c' w' (exchange can config fuel cts rounds c' w'))
        → length c.source ≤ 4095
        → Settles can config documented sends c w (send_state_machine can config fuel c w)
        → Finishes c w (exchange can config fuel cts (suc rounds) c w)
    unfolding exchange Settles Finishes
    round-Finishes rounds c w enough go bound (c', w', e, from, told, settled) =
        let (w'', e', told') = Settled-Finishes rounds c c' w' enough go bound settled in
        (
          w'',
          ap
                (λ (r : Run SendCtx D). r >>= λ c' w'.
                  send_can_tx_callback false c' w' >>= λ c'' w''.
                  answer can config fuel cts (exchange can config fuel cts rounds) c''.state c''
                    w'')
                e
              ∙ e',
          told' ∙ rw (told, from) refl,
        )

    Sending-Finishes :
        (rounds : ℕ) (c : SendCtx) (w : World D)
        → 4095 < fuel
        → length c.source < rounds
        → length c.source ≤ 4095
        → c.state ≡ send_cf
        → Sending can config documented sends c
        → Finishes c w (exchange can config fuel cts rounds c w)
    unfolding send_state_machine send_case Settles
    Sending-Finishes zero c w much enough bound state s = elim enough [ ]
    Sending-Finishes (suc rounds) c w much enough bound state s =
        round-Finishes rounds c w enough
          (λ c' w' less bound' state' s'. Sending-Finishes rounds c' w' much less bound' state' s')
          bound
          (subst
            (λ (t : TxState).
              (Settles can config documented sends) c w (send_case can config t fuel c w))
            (sym state)
            (loop-Settles can config documented sends fuel (record c { timer = none }) w
              (omega arith) (inl state)
              (record {
                some_left = s.some_left;
                counted = s.counted;
                number = s.number;
                numbered = s.numbered;
                at_once = s.at_once;
                blocked = s.blocked;
                backlog = s.backlog;
              })))

    -- If the driver completes the frames and the receiver answers, each time that flow control is waited for, with a
    -- frame that lets the sender go on at once, then the message comes to its end: the application is told
    -- that it was sent, once, and the context is freed. For a message of up to 4095 bytes that does not fit
    -- into one frame, more rounds than it has bytes, and a driver that takes every frame; whatever other flow
    -- control arrives while the sending loop waits for the driver.
    pub exchange-finishes :
        (message : Bytes) (rounds : ℕ) (c : SendCtx) (w : World D)
        → 4095 < fuel
        → length message < rounds
        → can.max_dlen - 2 < length message
        → length message ≤ 4095
        → c.state ≡ send_ff
        → c.source ≡ message
        → c.rem_len ≡ length message
        → (w' : World D) × (exchange can config fuel cts rounds c w ≡ freed w')
          × (w'.finished ≡ w.finished ++ (c.tx_addr, none) ∷ [])
    unfolding Finishes
    exchange-finishes message zero c w much enough long short state all counted = elim enough [ ]
    exchange-finishes message (suc rounds) c w much enough long short state all counted =
        round-Finishes rounds c w (omega (arith, ap length all))
          (λ c' w' less bound state' s. Sending-Finishes rounds c' w' much less bound state' s)
          (omega (arith, ap length all))
          (first-Settles can config documented sends message fuel c w long short state all counted)
