-- ===== src/Isotp/Send/Whole.antt =====
-- What the sending side of src/can/zephyr/isotp/isotp_fast.c reports of a message, and the events up to the report.
use thingsetplusplus.Prelude.{
  ℕ, ◌+◌, ◌-◌, ◌%◌, ◌≤◌, ◌<◌, ◌≡◌, refl, sym, ap, ◌∙◌, Bool, true, List, [], ◌∷◌, ◌++◌, Option,
  none, some, length, drop, length-drop, ltb, leb, ◌==◌, if◌then◌else◌, bit_and, arith, subst, inl,
  inr, Bool-cases,
}
use thingsetplusplus.Bytes.{Bytes}
use thingsetplusplus.Isotp.{
  CanFrame, Driver, IsotpError, TxState, reset, send_sf, send_ff, wait_fc, send_cf, wait_st,
  wait_backlog, wait_fin, tx_err, Config, SendCtx, send_work, World, Run, live, freed, fault, stuck,
  pci_type, byte_at, unexp_pdu, wft_ovrn, buffer_overflow, invalid_fs, timeout_bs,
}
use thingsetplusplus.Isotp.Segments.{Documented, AlwaysSends}
use thingsetplusplus.Isotp.Receive.{submit}
use thingsetplusplus.Isotp.Send.{
  send_case, on_send_ff, on_tx_end, send_state_machine, send_can_rx, send_can_tx_callback,
  send_timeout_handler, after_tx, send_report_error, send_process_fc, on_wait_frame, is_wait_fc,
  is_send_cf, free_send_ctx,
}
use thingsetplusplus.Isotp.Send.Emission.{Chain, Chain-AreConsecutive, send_first-Begins}
use thingsetplusplus.Isotp.Send.Progress.{
  SendEvent, work_runs, flow_control, frame_completes, timer_expires, send_step, unless_freed,
  send_steps, Partly, ByState, Good, Same, Same-Partly, Same-here, moved,
}
use thingsetplusplus.Isotp.Send.Loop.{loop-Good}

module _ {D : Type 0} (can : Driver D) (config : Config) (documented : Documented can)
    (sends : AlwaysSends can) (a : ℕ) (message : Bytes) (long : can.max_dlen - 2 < length message)
    (short : length message ≤ 4095) (old : List CanFrame)
    (reported : List (ℕ × Option IsotpError)) where
  Same-ByState :
      (s : TxState) (fs : List CanFrame) {c c' : SendCtx}
      → Same can config documented sends a message long short old reported c c'
      → ByState can config documented sends a message long short old reported s c fs
      → ByState can config documented sends a message long short old reported s c' fs
  Same-ByState send_ff fs same (none_yet, all, counted) =
      (none_yet, same.source ∙ all, same.rem_len ∙ counted)
  Same-ByState wait_fc fs same (p, pos) = (
    Same-Partly can config documented sends a message long short old reported same p,
    rw same.source pos,
  )
  Same-ByState send_cf fs same (p, pos) = (
    Same-Partly can config documented sends a message long short old reported same p,
    rw same.source pos,
  )
  Same-ByState wait_st fs same (p, pos) = (
    Same-Partly can config documented sends a message long short old reported same p,
    rw same.source pos,
  )
  Same-ByState wait_backlog fs same (p, end) = (
    Same-Partly can config documented sends a message long short old reported same p,
    same.source ∙ end,
  )
  Same-ByState wait_fin fs same (p, end) = (
    Same-Partly can config documented sends a message long short old reported same p,
    same.source ∙ end,
  )
  Same-ByState tx_err fs same (e, failed) = (e, same.error ∙ failed)
  Same-ByState reset fs same h = h
  Same-ByState send_sf fs same h = h

  -- A run of the state machine, by the state that it starts in.
  machine-Good :
      (fuel : ℕ) (s : TxState) (c : SendCtx) (w : World D)
      → 4095 < fuel
      → c.state ≡ s
      → c.tx_addr ≡ a
      → w.finished ≡ reported
      → ByState can config documented sends a message long short old reported s c w.frames
      → Good can config documented sends a message long short old reported
          (send_case can config s fuel c w)
  unfolding send_case on_send_ff on_tx_end free_send_ctx
  machine-Good fuel send_ff c w enough state from told (none_yet, all, counted) =
      let (f, id, begins, e) =
        send_first-Begins can config documented sends message long short c w all counted in
      rw (e, on_send_ff)
        (
          from,
          told,
          (
            record {
              head = f;
              tail = [];
              count = 1;
              are = ap (◌++ f ∷ []) none_yet;
              from = id ∙ from;
              begins = begins;
              chain = (refl, refl);
              missing = refl;
              numbered = refl;
              bound = omega (arith, length-drop (can.max_dlen - 2) message);
            },
            omega (arith, length-drop (can.max_dlen - 2) message),
          ),
        )
  machine-Good fuel send_cf c w enough state from told (p, pos) =
      (loop-Good can config documented sends a message long short old reported) fuel
        (record c { timer = none }) w (omega (arith, p.bound)) from told (inl state)
        (Same-Partly can config documented sends a message long short old reported
          (record { address = refl; source = refl; rem_len = refl; sn = refl; error = refl }) p)
        pos
  machine-Good fuel wait_st c w enough state from told (p, pos) =
      (from, told, (moved can config documented sends a message long short old reported p, pos))
  machine-Good fuel wait_fc c w enough state from told h = (
    from,
    told,
    subst
        (λ (s : TxState).
          (ByState can config documented sends a message long short old reported) s c w.frames)
        (sym state) h,
  )
  machine-Good fuel wait_backlog c w enough state from told h = (
    from,
    told,
    subst
        (λ (s : TxState).
          (ByState can config documented sends a message long short old reported) s c w.frames)
        (sym state) h,
  )
  machine-Good fuel tx_err c w enough state from told (e, failed) =
      inl (e, rw (told, from, failed) refl)
  machine-Good fuel wait_fin c w enough state from told (p, end) = inr (
    p.head ∷ p.tail,
    rw (told, from) refl,
    p.are,
    (
      p.from,
      p.begins,
      Chain-AreConsecutive can a 1 _ p.tail p.count (
          subst (λ (r : Bytes). Chain can a 1 (drop (can.max_dlen - 2) message) p.tail p.count r)
            end p.chain),
    ),
  )
  machine-Good fuel reset c w enough state from told h = absurd h
  machine-Good fuel send_sf c w enough state from told h = absurd h

  is_wait_fc_lem : (s : TxState) → is_wait_fc can config s ≡ true → s ≡ wait_fc
  unfolding is_wait_fc
  is_wait_fc_lem wait_fc h = refl
  is_wait_fc_lem send_ff h = cc
  is_wait_fc_lem _ h = cc

  process-Good :
      (frame : CanFrame) (c : SendCtx) (w : World D)
      → c.state ≡ wait_fc
      → c.tx_addr ≡ a
      → w.finished ≡ reported
      → Partly can config documented sends a message long short old reported c w.frames
      → 0 < length c.source
      → Good can config documented sends a message long short old reported
          (live (send_process_fc can config frame c) w)
  unfolding send_process_fc send_report_error on_wait_frame
  process-Good frame c w state from told p pos = elim (Bool-cases (pci_type frame == 48)) [
    | inr other ↦ rw other (from, told, (unexp_pdu, refl))
    | inl is_fc ↦ elim (Bool-cases (bit_and (byte_at frame 0) 15 == 0)) [
      | inl go ↦
          rw (is_fc, go)
            (
              from,
              told,
              (
                Same-Partly can config documented sends a message long short old reported
                    (Same-here can config documented sends a message long short old reported) p,
                pos,
              ),
            )
      | inr stop ↦ elim (Bool-cases (bit_and (byte_at frame 0) 15 == 1)) [
        | inl wait ↦ elim (Bool-cases (leb config.wft_max c.wft)) [
          | inl too_often ↦ rw (is_fc, stop, wait, too_often) (from, told, (wft_ovrn, refl))
          | inr patient ↦
              rw (is_fc, stop, wait, patient)
                (
                  from,
                  told,
                  subst
                      (λ (s : TxState).
                        (ByState can config documented sends a message long short old reported) s
                          (record c { timer = some config.bs_timeout; wft = (c.wft + 1) % 256 })
                          w.frames)
                      (sym state)
                      (
                        Same-Partly can config documented sends a message long short old reported
                            (Same-here can config documented sends a message long short old
                              reported)
                            p,
                        pos,
                      ),
                )
        ]
        | inr no_wait ↦ elim (Bool-cases (bit_and (byte_at frame 0) 15 == 2)) [
          | inl overflow ↦ rw (is_fc, stop, no_wait, overflow) (from, told, (buffer_overflow, refl))
          | inr invalid ↦ rw (is_fc, stop, no_wait, invalid) (from, told, (invalid_fs, refl))
        ]
      ]
    ]
  ]

  fc-Good :
      (frame : CanFrame) (c : SendCtx) (w : World D)
      → Good can config documented sends a message long short old reported (live c w)
      → Good can config documented sends a message long short old reported
          (send_can_rx can config frame c w)
  unfolding send_can_rx submit send_report_error
  fc-Good frame c w (from, told, h) = elim (Bool-cases (is_wait_fc can config c.state)) [
    | inl waits ↦
        let state = is_wait_fc_lem c.state waits in
        let (p, pos) : Partly can config documented sends a message long short old reported c
              w.frames
            × (0 < length c.source) =
          subst
            (λ (s : TxState).
              (ByState can config documented sends a message long short old reported) s c w.frames)
            state h in
        subst
          (λ (x : Bool). (Good can config documented sends a message long short old reported) (
            live
              (if x
                then send_process_fc can config frame (record c { timer = none })
                else send_report_error unexp_pdu c)
              (submit (send_work c.tx_addr) w)))
          (sym waits)
          (process-Good frame (record c { timer = none }) (submit (send_work c.tx_addr) w) state
            from told
            (Same-Partly can config documented sends a message long short old reported
              (Same-here can config documented sends a message long short old reported) p)
            pos)
    | inr other ↦ rw other (from, told, (unexp_pdu, refl))
  ]

  after_tx-Good :
      (s : TxState) (c : SendCtx) (w : World D)
      → c.state ≡ s
      → c.tx_addr ≡ a
      → w.finished ≡ reported
      → ByState can config documented sends a message long short old reported c.state c w.frames
      → Good can config documented sends a message long short old reported (after_tx s c w)
  unfolding after_tx submit
  after_tx-Good wait_backlog c w state from told h = elim (Bool-cases (ltb 0 c.backlog)) [
    | inl busy ↦ rw busy (from, told, h)
    | inr last ↦
        let (p, end) : Partly can config documented sends a message long short old reported c
              w.frames
            × (c.source ≡ []) =
          subst
            (λ (s : TxState).
              (ByState can config documented sends a message long short old reported) s c w.frames)
            state h in
        rw last
          (from, told, (moved can config documented sends a message long short old reported p, end))
  ]
  after_tx-Good send_ff c w state from told h = (from, told, h)
  after_tx-Good _ c w state from told h = (from, told, h)

  step-Good :
      (fuel : ℕ) (e : SendEvent) (c : SendCtx) (w : World D)
      → 4095 < fuel
      → Good can config documented sends a message long short old reported (live c w)
      → Good can config documented sends a message long short old reported
          (send_step can config fuel e c w)
  unfolding send_step send_state_machine send_can_tx_callback send_timeout_handler submit
      send_report_error
  step-Good fuel work_runs c w enough (from, told, h) =
      machine-Good fuel c.state c w enough refl from told h
  step-Good fuel (flow_control frame) c w enough good = fc-Good frame c w good
  step-Good fuel (frame_completes error) c w enough (from, told, h) =
      after_tx-Good c.state
        (record c { pending_cb = c.pending_cb - 1; backlog = (c.backlog + 255) % 256; sem = 1 }) w
        refl from told
        (Same-ByState c.state w.frames
          (Same-here can config documented sends a message long short old reported) h)
  step-Good fuel timer_expires c w enough (from, told, h) =
      elim (Bool-cases (is_send_cf can config c.state)) [
        | inl sending ↦
            subst
              (λ (x : Bool). (Good can config documented sends a message long short old reported) (
                live
                  (if x
                    then record c { timer = none }
                    else send_report_error timeout_bs (record c { timer = none }))
                  (submit (send_work c.tx_addr) w)))
              (sym sending)
              (
                from,
                told,
                Same-ByState c.state w.frames
                    (Same-here can config documented sends a message long short old reported) h,
              )
        | inr other ↦ rw other (from, told, (timeout_bs, refl))
      ]

  unless_freed-Good :
      (fuel : ℕ) (more : SendCtx → World D → Run SendCtx D) (r : Run SendCtx D)
      → ((c : SendCtx) (w : World D)
          → Good can config documented sends a message long short old reported (live c w)
          → Good can config documented sends a message long short old reported (more c w))
      → Good can config documented sends a message long short old reported r
      → Good can config documented sends a message long short old reported
          (unless_freed can config fuel more r)
  unfolding unless_freed
  unless_freed-Good fuel more (live c w) keep good = keep c w good
  unless_freed-Good fuel more (freed w) keep good = good
  unless_freed-Good fuel more fault keep good = good
  unless_freed-Good fuel more stuck keep good = good

  pub steps-Good :
      (fuel : ℕ) (es : List SendEvent) (c : SendCtx) (w : World D)
      → 4095 < fuel
      → Good can config documented sends a message long short old reported (live c w)
      → Good can config documented sends a message long short old reported
          (send_steps can config fuel es c w)
  unfolding send_steps
  steps-Good fuel [] c w enough good = good
  steps-Good fuel (e ∷ es) c w enough good =
      unless_freed-Good fuel (send_steps can config fuel es) (send_step can config fuel e c w)
        (λ c' w' good'. steps-Good fuel es c' w' enough good') (step-Good fuel e c w enough good)
