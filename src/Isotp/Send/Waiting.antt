-- ===== src/Isotp/Send/Waiting.antt =====
-- The sending loop of src/can/zephyr/isotp/isotp_fast.c while it waits for the driver: flow control that nobody waits
-- for may arrive, and a frame is completed.
use thingsetplusplus.Prelude.{
  ℕ, ◌+◌, ◌-◌, ◌%◌, ◌≡◌, refl, ap, ◌∙◌, ◌⊎◌, inl, inr, false, List, [], ◌∷◌, ◌==◌, arith,
  Bool-cases,
}
use thingsetplusplus.Isotp.{
  CanFrame, Driver, Config, SendCtx, TxState, send_cf, tx_err, unexp_pdu, send_work, World, Run,
  live, ◌>>=◌,
}
use thingsetplusplus.Isotp.Receive.{submit}
use thingsetplusplus.Isotp.Send.{
  after_tx, send_can_tx_callback, send_can_rx, is_wait_fc, send_report_error, interrupted, wait_sem,
  take_sem,
}

-- The states that the loop goes through between two frames.
abbrev pub InLoop : TxState → Type 0
InLoop s = (s ≡ send_cf) ⊎ (s ≡ tx_err)

-- What waiting leaves of a context, and, where it starts without a count, of the count and the backlog.
pub record Waited (c c' : SendCtx) : Type 0 where
  pub in_loop : InLoop c'.state
  pub address : c'.tx_addr ≡ c.tx_addr
  pub source : c'.source ≡ c.source
  pub rem_len : c'.rem_len ≡ c.rem_len
  pub sn : c'.sn ≡ c.sn
  pub stmin : c'.stmin ≡ c.stmin
  pub blocked : c.sem ≡ 0 → c'.sem ≡ 0

module _ {D : Type 0} (can : Driver D) (config : Config) where
  unexpected :
      (frame : CanFrame) (c : SendCtx) (w : World D)
      → InLoop c.state
      → send_can_rx can config frame c w
        ≡ live (send_report_error unexp_pdu c) (submit (send_work c.tx_addr) w)
  unfolding send_can_rx is_wait_fc
  unexpected frame c w at =
      let other : is_wait_fc can config c.state ≡ false = elim at [
        | inl sending ↦ ap (is_wait_fc can config) sending
        | inr failed ↦ ap (is_wait_fc can config) failed
      ] in
      rw (other, send_can_rx) refl

  interrupted-live :
      (frames : List CanFrame) (c : SendCtx) (w : World D)
      → InLoop c.state
      → (c' : SendCtx) × (w' : World D) × (interrupted can config frames c w ≡ live c' w')
        × Waited c c'
        × (c'.sem ≡ c.sem)
        × (c'.backlog ≡ c.backlog)
        × (w'.frames ≡ w.frames)
        × (w'.finished ≡ w.finished)
  unfolding interrupted send_report_error submit
  interrupted-live [] c w at = (
    c,
    w,
    refl,
    record {
      in_loop = at;
      address = refl;
      source = refl;
      rem_len = refl;
      sn = refl;
      stmin = refl;
      blocked = λ e. e;
    },
    refl,
    refl,
    refl,
    refl,
  )
  interrupted-live (frame ∷ frames) c w at =
      let (c', w', e, waited, sem, backlog, queued, told) =
        interrupted-live frames (send_report_error unexp_pdu c) (submit (send_work c.tx_addr) w)
          (inr refl) in
      (
        c',
        w',
        ap (λ (r : Run SendCtx D). r >>= interrupted can config frames) (unexpected frame c w at)
            ∙ e,
        record {
          in_loop = waited.in_loop;
          address = waited.address;
          source = waited.source;
          rem_len = waited.rem_len;
          sn = waited.sn;
          stmin = waited.stmin;
          blocked = waited.blocked;
        },
        sem,
        backlog,
        queued,
        told,
      )

  after_tx-InLoop :
      (s : TxState) (c : SendCtx) (w : World D)
      → InLoop s
      → after_tx s c w ≡ live c (submit (send_work c.tx_addr) w)
  unfolding after_tx
  after_tx-InLoop s c w (inl sending) = ap (λ (t : TxState). after_tx t c w) sending
  after_tx-InLoop s c w (inr failed) = ap (λ (t : TxState). after_tx t c w) failed

  wait_sem-live :
      (c : SendCtx) (w : World D)
      → InLoop c.state
      → (c' : SendCtx) × (w' : World D) × (wait_sem can config c w ≡ live c' w')
        × Waited c c'
        × (c.sem ≡ 0 → c'.backlog ≡ (c.backlog + 255) % 256)
        × (w'.frames ≡ w.frames)
        × (w'.finished ≡ w.finished)
  unfolding wait_sem send_can_tx_callback submit
  wait_sem-live c w at = elim (Bool-cases (c.sem == 0)) [
    | inl waits ↦
        let ticked : SendCtx = record c {
          pending_cb = c.pending_cb - 1;
          backlog = (c.backlog + 255) % 256;
          sem = 1;
        } in
        (
          record ticked { sem = 0 },
          submit (send_work c.tx_addr) w,
          rw (waits, after_tx-InLoop c.state ticked w at, wait_sem) refl,
          record {
            in_loop = at;
            address = refl;
            source = refl;
            rem_len = refl;
            sn = refl;
            stmin = refl;
            blocked = λ e. refl;
          },
          λ e. refl,
          refl,
          refl,
        )
    | inr ready ↦ (
      record c { sem = c.sem - 1 },
      w,
      rw (ready, wait_sem) refl,
      record {
        in_loop = at;
        address = refl;
        source = refl;
        rem_len = refl;
        sn = refl;
        stmin = refl;
        blocked = λ e. ground arith;
      },
      λ e. ground arith,
      refl,
      refl,
    )
  ]

  -- The wait of the loop comes to its end, whatever flow control arrives meanwhile.
  pub take_sem-live :
      (c : SendCtx) (w : World D)
      → InLoop c.state
      → (c' : SendCtx) × (w' : World D) × (take_sem can config c w ≡ live c' w')
        × Waited c c'
        × (c.sem ≡ 0 → c'.backlog ≡ (c.backlog + 255) % 256)
        × (w'.frames ≡ w.frames)
        × (w'.finished ≡ w.finished)
  unfolding take_sem
  take_sem-live c w at =
      let (c1, w1, e1, first, sem, backlog, queued1, told1) =
        interrupted-live (can.meanwhile w.driver) c w at in
      let (c2, w2, e2, second, freed_, queued2, told2) = wait_sem-live c1 w1 first.in_loop in
      (
        c2,
        w2,
        rw (e1, take_sem) e2,
        record {
          in_loop = second.in_loop;
          address = second.address ∙ first.address;
          source = second.source ∙ first.source;
          rem_len = second.rem_len ∙ first.rem_len;
          sn = second.sn ∙ first.sn;
          stmin = second.stmin ∙ first.stmin;
          blocked = λ e. second.blocked (sem ∙ e);
        },
        λ e. freed_ (sem ∙ e) ∙ ap (λ (b : ℕ). (b + 255) % 256) backlog,
        queued2 ∙ queued1,
        told2 ∙ told1,
      )
