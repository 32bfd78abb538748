-- ===== src/Isotp/Send/Keeps.antt =====
-- What a run on a send context (src/can/zephyr/isotp/isotp_fast.c) returns to the slab.
use thingsetplusplus.Prelude.{
  ℕ, zero, suc, ◌+◌, ◌-◌, ◌%◌, ◌≡◌, refl, ◌∙◌, inl, inr, Bool, false, List, [], ◌∷◌, none, ltb,
  ◌==◌, if◌then◌else◌, bit_or, take, drop, arith, Bool-cases,
}
use thingsetplusplus.Isotp.{
  CanFrame, SendResult, queued, again, failure, Driver, Config, SendCtx, TxState, reset, send_sf,
  send_ff, wait_fc, send_cf, wait_st, wait_backlog, wait_fin, tx_err, World, Run, live, freed,
  fault, stuck, ◌>>=◌,
}
use thingsetplusplus.Isotp.Receive.{submit}
use thingsetplusplus.Isotp.Receive.Keeps.{SendResult-cases}
use thingsetplusplus.Isotp.Send.{
  prepare_frame, queue_frame, send_first, count_cf, send_consecutive, next_state, after_send_cf,
  send_loop, on_send_ff, on_tx_end, send_case, send_state_machine, interrupted, wait_sem, take_sem,
  after_tx, send_can_tx_callback, send_process_fc, on_wait_frame, send_can_rx, send_timeout_handler,
  send_report_error, is_wait_fc, is_send_cf, free_send_ctx,
}

module _ {D : Type 0} where
  abbrev pub SendKeeps : SendCtx → World D → Run SendCtx D → Type 0
  SendKeeps c w (live c' w') =
      (c'.tx_addr ≡ c.tx_addr)
      × (w'.free_send ≡ w.free_send)
      × (w'.free_recv ≡ w.free_recv)
      × (w'.free_bufs ≡ w.free_bufs)
  SendKeeps c w (freed w') =
      (w'.free_send ≡ suc w.free_send) × (w'.free_recv ≡ w.free_recv) × (w'.free_bufs ≡ w.free_bufs)
  SendKeeps c w fault = Unit {0}
  SendKeeps c w stuck = Unit {0}

  trans-Keeps :
      (c c' : SendCtx) (w w' : World D) (r : Run SendCtx D)
      → SendKeeps c w (live c' w')
      → SendKeeps c' w' r
      → SendKeeps c w r
  trans-Keeps c c' w w' (live c'' w'') h k = ground arith
  trans-Keeps c c' w w' (freed w'') h k = ground arith
  trans-Keeps c c' w w' fault h k = tt
  trans-Keeps c c' w w' stuck h k = tt

  bind-Keeps :
      (c : SendCtx) (w : World D) (r : Run SendCtx D) (f : SendCtx → World D → Run SendCtx D)
      → SendKeeps c w r
      → ((c' : SendCtx) (w' : World D) → SendKeeps c' w' (f c' w'))
      → SendKeeps c w (r >>= f)
  bind-Keeps c w (live c' w') f h all = trans-Keeps c c' w w' (f c' w') h (all c' w')
  bind-Keeps c w (freed w') f h all = tt
  bind-Keeps c w fault f h all = tt
  bind-Keeps c w stuck f h all = tt

  after_tx-Keeps : (s : TxState) (c : SendCtx) (w : World D) → SendKeeps c w (after_tx s c w)
  unfolding after_tx submit
  after_tx-Keeps wait_backlog c w = elim (Bool-cases (ltb 0 c.backlog)) [
    | inl busy ↦ rw busy (refl, refl, refl, refl)
    | inr last ↦ rw last (refl, refl, refl, refl)
  ]
  after_tx-Keeps send_ff c w = (refl, refl, refl, refl)
  after_tx-Keeps _ c w = (refl, refl, refl, refl)

  pub send_can_tx_callback-Keeps :
      (error : Bool) (c : SendCtx) (w : World D) → SendKeeps c w (send_can_tx_callback error c w)
  unfolding send_can_tx_callback
  send_can_tx_callback-Keeps error c w =
      after_tx-Keeps c.state
        (record c { pending_cb = c.pending_cb - 1; backlog = (c.backlog + 255) % 256; sem = 1 }) w

  -- What was sent is a context and a world.
  abbrev TripleKeeps : SendCtx → World D → SendResult × SendCtx × World D → Type 0
  TripleKeeps c w (ret, c', w') = SendKeeps c w (live c' w')

module _ {D : Type 0} (can : Driver D) (config : Config) where
  queue_frame-Keeps :
      (frame : CanFrame) (c : SendCtx) (w : World D)
      → TripleKeeps c w (queue_frame can config frame c w)
  unfolding queue_frame
  queue_frame-Keeps frame c w = elim (SendResult-cases (can.can_send frame w.driver).0) [
    | inl sent ↦ rw (sent, queue_frame) (refl, refl, refl, refl)
    | inr (inl busy) ↦ rw (busy, queue_frame) (refl, refl, refl, refl)
    | inr (inr broken) ↦ rw (broken, queue_frame) (refl, refl, refl, refl)
  ]

  counted-Keeps :
      (c : SendCtx) (w : World D) (r : SendResult × SendCtx × World D)
      → TripleKeeps c w r
      → TripleKeeps c w (r.0, count_cf can config r.0 r.1, r.2)
  unfolding count_cf
  counted-Keeps c w (queued, c', w') h = h
  counted-Keeps c w (again, c', w') h = h
  counted-Keeps c w (failure, c', w') h = h

  send_consecutive-Keeps :
      (c : SendCtx) (w : World D) → TripleKeeps c w (send_consecutive can config c w)
  unfolding send_consecutive
  send_consecutive-Keeps c w =
      let room = can.max_dlen - 1 in
      let len = if ltb c.rem_len room then c.rem_len else room in
      let frame : CanFrame =
        prepare_frame can config c.tx_addr (can.bytes_to_dlc (len + 1))
          (bit_or 32 c.sn ∷ take len c.source) in
      let c' : SendCtx = record c { rem_len = c.rem_len - len; source = drop len c.source } in
      counted-Keeps c w (queue_frame can config frame c' w) (queue_frame-Keeps frame c' w)

  send_first-Keeps : (c : SendCtx) (w : World D) → TripleKeeps c w (send_first can config c w)
  unfolding send_first
  send_first-Keeps c w = queue_frame-Keeps _ _ w

  send_process_fc-address :
      (frame : CanFrame) (c : SendCtx) → (send_process_fc can config frame c).tx_addr ≡ c.tx_addr
  unfolding send_process_fc send_report_error on_wait_frame
  send_process_fc-address frame c = ground arith

  pub send_can_rx-Keeps :
      (frame : CanFrame) (c : SendCtx) (w : World D)
      → SendKeeps c w (send_can_rx can config frame c w)
  unfolding send_can_rx send_report_error submit
  send_can_rx-Keeps frame c w = elim (Bool-cases (is_wait_fc can config c.state)) [
    | inl waits ↦
        rw waits (send_process_fc-address frame (record c { timer = none }), refl, refl, refl)
    | inr other ↦ rw other (refl, refl, refl, refl)
  ]

  interrupted-Keeps :
      (frames : List CanFrame) (c : SendCtx) (w : World D)
      → SendKeeps c w (interrupted can config frames c w)
  unfolding interrupted
  interrupted-Keeps [] c w = (refl, refl, refl, refl)
  interrupted-Keeps (frame ∷ frames) c w =
      bind-Keeps c w (send_can_rx can config frame c w) (interrupted can config frames)
        (send_can_rx-Keeps frame c w) (interrupted-Keeps frames)

  wait_sem-Keeps : (c : SendCtx) (w : World D) → SendKeeps c w (wait_sem can config c w)
  unfolding wait_sem
  wait_sem-Keeps c w = elim (Bool-cases (c.sem == 0)) [
    | inl waits ↦ rw (waits) (
        bind-Keeps c w _ _ (send_can_tx_callback-Keeps false c w)
          (λ c' w'. (refl, refl, refl, refl)))
    | inr ready ↦ rw (ready) (refl, refl, refl, refl)
  ]

  take_sem-Keeps : (c : SendCtx) (w : World D) → SendKeeps c w (take_sem can config c w)
  unfolding take_sem
  take_sem-Keeps c w =
      bind-Keeps c w (interrupted can config (can.meanwhile w.driver) c w) (wait_sem can config)
        (interrupted-Keeps (can.meanwhile w.driver) c w) wait_sem-Keeps

  next_state-address : (c : SendCtx) → (next_state can config c).1.tx_addr ≡ c.tx_addr
  unfolding next_state
  next_state-address c = ground arith

  after_send_cf-Keeps :
      (loop : SendCtx → World D → Run SendCtx D) (c : SendCtx) (w : World D)
      (r : SendResult × SendCtx × World D)
      → ((c' : SendCtx) (w' : World D) → SendKeeps c' w' (loop c' w'))
      → TripleKeeps c w r
      → SendKeeps c w (after_send_cf can config loop r)
  unfolding after_send_cf send_report_error
  after_send_cf-Keeps loop c w (again, c', w') all h = h
  after_send_cf-Keeps loop c w (failure, c', w') all h = h
  after_send_cf-Keeps loop c w (queued, c', w') all h =
      let next = (next_state can config c').1 in
      let moved : SendKeeps c w (live next w') = (next_state-address c' ∙ h.0, h.1, h.2, h.3) in
      elim (Bool-cases (next_state can config c').0) [
        | inl goes_on ↦
            rw (goes_on, after_send_cf)
              (trans-Keeps c next w w' _ moved
                (bind-Keeps next w' _ loop (take_sem-Keeps next w') all))
        | inr stops ↦ rw (stops, after_send_cf) moved
      ]

  send_loop-Keeps :
      (fuel : ℕ) (c : SendCtx) (w : World D) → SendKeeps c w (send_loop can config fuel c w)
  unfolding send_loop
  send_loop-Keeps zero c w = tt
  send_loop-Keeps (suc fuel) c w =
      after_send_cf-Keeps (send_loop can config fuel) c w (send_consecutive can config c w)
        (send_loop-Keeps fuel) (send_consecutive-Keeps c w)

  send_case-Keeps :
      (s : TxState) (fuel : ℕ) (c : SendCtx) (w : World D)
      → SendKeeps c w (send_case can config s fuel c w)
  unfolding send_case on_send_ff on_tx_end free_send_ctx
  send_case-Keeps send_ff fuel c w = send_first-Keeps c w
  send_case-Keeps send_cf fuel c w = send_loop-Keeps fuel (record c { timer = none }) w
  send_case-Keeps wait_st fuel c w = (refl, refl, refl, refl)
  send_case-Keeps tx_err fuel c w = (omega arith, refl, refl)
  send_case-Keeps wait_fin fuel c w = (omega arith, refl, refl)
  send_case-Keeps reset fuel c w = (refl, refl, refl, refl)
  send_case-Keeps send_sf fuel c w = (refl, refl, refl, refl)
  send_case-Keeps wait_fc fuel c w = (refl, refl, refl, refl)
  send_case-Keeps wait_backlog fuel c w = (refl, refl, refl, refl)

  pub send_state_machine-Keeps :
      (fuel : ℕ) (c : SendCtx) (w : World D)
      → SendKeeps c w (send_state_machine can config fuel c w)
  unfolding send_state_machine
  send_state_machine-Keeps fuel c w = send_case-Keeps c.state fuel c w

  pub send_timeout_handler-Keeps :
      (c : SendCtx) (w : World D) → SendKeeps c w (send_timeout_handler can config c w)
  unfolding send_timeout_handler send_report_error submit
  send_timeout_handler-Keeps c w = elim (Bool-cases (is_send_cf can config c.state)) [
    | inl sending ↦ rw sending (refl, refl, refl, refl)
    | inr other ↦ rw other (refl, refl, refl, refl)
  ]
