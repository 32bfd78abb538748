-- ===== src/Isotp/Receive/Keeps.antt =====
-- What a run on a receive context (src/can/zephyr/isotp/isotp_fast.c) takes from the slab and the pool, and returns.
use thingsetplusplus.Prelude.{
  ℕ, zero, suc, ◌+◌, ◌-◌, ◌*◌, ◌%◌, ◌≡◌, refl, ◌⊎◌, inl, inr, not, ◌&&◌, [], ◌∷◌, ◌++◌, none,
  length, ltb, leb, ◌==◌, if◌then◌else◌, bit_and, arith, Bool-cases,
}
use thingsetplusplus.Isotp.{
  CanFrame, SendResult, queued, again, failure, Driver, Config, RecvCtx, RxState, wait_ff_sf,
  process_sf, process_ff, try_alloc, send_fc, wait_cf, send_wait, rx_err, recycle, unbound, World,
  Run, live, freed, fault, stuck, ◌>>=◌, timeout_a, buffer_overflow, byte_at, pci_type,
}
use thingsetplusplus.Isotp.Receive.{
  submit, receive_report_error, is_overflow, fc_frame, receive_send_fc, on_send_fc, on_try_alloc,
  on_process_ff, unbind_and_free, on_err, on_send_wait, on_recycle, receive_case,
  receive_state_machine, add_to_frag, process_first, process_single, process_ff_sf, after_cf,
  process_cf, on_timeout, receive_timeout_handler, is_wait_cf, submit_unless_waiting,
  receive_dispatch, free_recv_ctx,
}

module _ {D : Type 0} where
  abbrev pub RecvKeeps : RecvCtx → World D → Run RecvCtx D → Type 0
  RecvKeeps c w (live c' w') =
      (c'.rx_addr ≡ c.rx_addr)
      × (w'.free_recv ≡ w.free_recv)
      × (w'.free_send ≡ w.free_send)
      × (w'.free_bufs + length c'.buffer ≡ w.free_bufs + length c.buffer)
  RecvKeeps c w (freed w') =
      (w'.free_recv ≡ suc w.free_recv)
      × (w'.free_send ≡ w.free_send)
      × (w'.free_bufs ≡ w.free_bufs + suc (length c.buffer))
  RecvKeeps c w fault = Unit {0}
  RecvKeeps c w stuck = Unit {0}

  abbrev pub AllKeep : (RecvCtx → World D → Run RecvCtx D) → Type 0
  AllKeep f = (c : RecvCtx) (w : World D) → RecvKeeps c w (f c w)

  bind-Keeps :
      (c : RecvCtx) (w : World D) (r : Run RecvCtx D) (f : RecvCtx → World D → Run RecvCtx D)
      → RecvKeeps c w r
      → AllKeep f
      → RecvKeeps c w (r >>= f)
  bind-Keeps c w (live c' w') f h all = onward c' w' (f c' w') h (all c' w')
    where
      onward :
          (c' : RecvCtx) (w' : World D) (r : Run RecvCtx D)
          → RecvKeeps c w (live c' w')
          → RecvKeeps c' w' r
          → RecvKeeps c w r
      onward c' w' (live c'' w'') h k = ground arith
      onward c' w' (freed w'') h k = ground arith
      onward c' w' fault h k = tt
      onward c' w' stuck h k = tt
  bind-Keeps c w (freed w') f h all = tt
  bind-Keeps c w fault f h all = tt
  bind-Keeps c w stuck f h all = tt

pub SendResult-cases : (r : SendResult) → (r ≡ queued) ⊎ ((r ≡ again) ⊎ (r ≡ failure))
SendResult-cases queued = inl refl
SendResult-cases again = inr (inl refl)
SendResult-cases failure = inr (inr refl)

module _ {D : Type 0} (can : Driver D) (config : Config)
    (machine : RecvCtx → World D → Run RecvCtx D) (ih : AllKeep machine) where
  receive_send_fc-Keeps : (fs : ℕ) → AllKeep (receive_send_fc can config machine fs)
  unfolding receive_send_fc
  receive_send_fc-Keeps fs c w =
      let frame = fc_frame can config fs c in
      elim (SendResult-cases (can.can_send frame w.driver).0) [
        | inl sent ↦ rw (sent, receive_send_fc) (refl, refl, refl, refl)
        | inr (inl busy) ↦
            rw (busy, receive_send_fc)
              (ih (receive_report_error timeout_a c)
                (record w { driver = (can.can_send frame w.driver).1 }))
        | inr (inr broken) ↦
            rw (broken, receive_send_fc)
              (ih (receive_report_error timeout_a c)
                (record w { driver = (can.can_send frame w.driver).1 }))
      ]

  on_send_fc-Keeps : AllKeep (on_send_fc can config machine)
  unfolding on_send_fc
  on_send_fc-Keeps c w =
      bind-Keeps c w _ _ (receive_send_fc-Keeps 0 c w) (λ c' w'. (refl, refl, refl, refl))

  on_err-Keeps : AllKeep (on_err can config machine)
  unfolding on_err unbind_and_free free_recv_ctx
  on_err-Keeps c w = elim (Bool-cases (is_overflow c.error)) [
    | inl overflow ↦ rw overflow (
        bind-Keeps c w _ _
          (receive_send_fc-Keeps 2 (record c { timer = none })
            (record w { failed = w.failed ++ (c.rx_addr, c.error) ∷ [] }))
          (λ c' w'. (omega arith, refl, refl)))
    | inr other ↦ rw other (omega arith, refl, refl)
  ]

  receive_case-Keeps : (s : RxState) → AllKeep (receive_case can config s machine)
  unfolding receive_case on_try_alloc on_process_ff on_send_wait on_recycle unbind_and_free
      free_recv_ctx receive_report_error
  receive_case-Keeps process_sf c w = ih (record c { rem_len = 0; state = recycle }) w
  receive_case-Keeps process_ff c w =
      elim (Bool-cases
        (config.bs == 0 && ltb (config.max_packet_count * (can.max_dlen - 1)) c.rem_len)) [
          | inl over ↦ rw over (ih (receive_report_error buffer_overflow c) w)
          | inr fits ↦ rw fits (on_send_fc-Keeps _ w)
        ]
  receive_case-Keeps try_alloc c w = on_send_fc-Keeps (record c { timer = none; state = send_fc }) w
  receive_case-Keeps send_fc c w = on_send_fc-Keeps c w
  receive_case-Keeps send_wait c w = elim (Bool-cases (ltb ((c.wft + 1) % 256) config.wft_max)) [
    | inl few ↦ rw few (
        bind-Keeps c w _ _ (receive_send_fc-Keeps 1 (record c { wft = (c.wft + 1) % 256 }) w)
          (λ c' w'. (refl, refl, refl, refl)))
    | inr many ↦ rw many (
        on_err-Keeps (receive_report_error buffer_overflow (record c { wft = (c.wft + 1) % 256 }))
          w)
  ]
  receive_case-Keeps rx_err c w = on_err-Keeps c w
  receive_case-Keeps recycle c w = (omega arith, refl, refl)
  receive_case-Keeps wait_ff_sf c w = (refl, refl, refl, refl)
  receive_case-Keeps wait_cf c w = (refl, refl, refl, refl)
  receive_case-Keeps unbound c w = (refl, refl, refl, refl)

module _ {D : Type 0} (can : Driver D) (config : Config) where
  pub receive_state_machine-Keeps : (fuel : ℕ) → AllKeep (receive_state_machine can config fuel)
  unfolding receive_state_machine
  receive_state_machine-Keeps zero c w = tt
  receive_state_machine-Keeps (suc fuel) c w =
      receive_case-Keeps can config (receive_state_machine can config fuel)
        (receive_state_machine-Keeps fuel) c.state c w

  on_timeout-Keeps :
      (s : RxState) (c : RecvCtx) (w : World D) → RecvKeeps c w (live (on_timeout s c) w)
  unfolding on_timeout receive_report_error
  on_timeout-Keeps wait_cf c w = (refl, refl, refl, refl)
  on_timeout-Keeps try_alloc c w = (refl, refl, refl, refl)
  on_timeout-Keeps _ c w = (refl, refl, refl, refl)

  pub receive_timeout_handler-Keeps : AllKeep (receive_timeout_handler {D = D})
  unfolding receive_timeout_handler submit
  receive_timeout_handler-Keeps c w = on_timeout-Keeps c.state c w

  add_to_frag-Keeps : (i n : ℕ) (frame : CanFrame) → AllKeep (add_to_frag can config i n frame)
  unfolding add_to_frag
  add_to_frag-Keeps i n frame c w = elim (Bool-cases (leb (length c.frag + n) (can.max_dlen - 1))) [
    | inl fits ↦ rw fits (refl, refl, refl, refl)
    | inr over ↦ rw over tt
  ]

  process_ff_sf-Keeps : (frame : CanFrame) → AllKeep (process_ff_sf can config frame)
  unfolding process_ff_sf process_first process_single receive_report_error submit
  process_ff_sf-Keeps frame c w = elim (Bool-cases (pci_type frame == 16)) [
    | inl first ↦ elim (Bool-cases (frame.dlc == can.ff_dl_min)) [
      | inl coded ↦ rw (first, coded) (add_to_frag-Keeps 2 (can.max_dlen - 2) frame _ w)
      | inr other ↦ rw (first, other) (refl, refl, refl, refl)
    ]
    | inr not_first ↦ elim (Bool-cases (pci_type frame == 0)) [
      | inl single ↦ rw (not_first, single) (single-Keeps _ _ frame c w)
      | inr neither ↦ rw (not_first, neither) (refl, refl, refl, refl)
    ]
  ]
    where
      single-Keeps :
          (n i : ℕ) (frame : CanFrame) (c : RecvCtx) (w : World D)
          → RecvKeeps c w (
              if ltb
                (can.dlc_to_bytes frame.dlc)
                (if ltb (can.max_dlen - i) n then can.max_dlen - i else n)
              then live (record c { rem_len = n }) w
              else add_to_frag can config i
                  (if ltb (can.max_dlen - i) n then can.max_dlen - i else n)
                  frame
                  (record c { rem_len = n; state = process_sf })
                  w)
      single-Keeps n i frame c w =
          elim (Bool-cases (
            ltb (can.dlc_to_bytes frame.dlc)
              (if ltb (can.max_dlen - i) n then can.max_dlen - i else n))) [
                | inl over ↦ rw over (refl, refl, refl, refl)
                | inr fits ↦ rw fits (add_to_frag-Keeps i _ frame _ w)
              ]

  after_cf-Keeps : AllKeep (after_cf can config)
  unfolding after_cf submit
  after_cf-Keeps c w = elim (Bool-cases (c.rem_len == 0)) [
    | inl done ↦ rw done (refl, refl, refl, refl)
    | inr more ↦
        elim (Bool-cases
          (not (config.bs == 0) && (if config.bs == 0 then c.bs else (c.bs + 255) % 256) == 0)) [
            | inl complete ↦ rw (more, complete) (refl, refl, refl, refl)
            | inr goes_on ↦ rw (more, goes_on) (refl, refl, refl, refl)
          ]
  ]

  process_cf-Keeps : (frame : CanFrame) → AllKeep (process_cf can config frame)
  unfolding process_cf receive_report_error submit
  process_cf-Keeps frame c w = elim (Bool-cases (pci_type frame == 32)) [
    | inr other ↦ rw other (refl, refl, refl, refl)
    | inl is_cf ↦ elim (Bool-cases (bit_and (byte_at frame 0) 15 == c.sn_expected)) [
      | inr wrong ↦ rw (is_cf, wrong) (refl, refl, refl, refl)
      | inl right ↦ elim (Bool-cases (can.dlc_to_bytes frame.dlc == 0)) [
        | inl empty ↦ rw (is_cf, right, empty) tt
        | inr filled ↦
            rw (is_cf, right, filled)
              (bind-Keeps c w _ _ (add_to_frag-Keeps 1 _ frame _ w) after_cf-Keeps)
      ]
    ]
  ]

  submit_unless_waiting-Keeps : AllKeep (submit_unless_waiting can config)
  unfolding submit_unless_waiting submit
  submit_unless_waiting-Keeps c w = elim (Bool-cases (is_wait_cf c.state)) [
    | inl waits ↦ rw waits (refl, refl, refl, refl)
    | inr other ↦ rw other (refl, refl, refl, refl)
  ]

  pub receive_dispatch-Keeps :
      (s : RxState) (frame : CanFrame) → AllKeep (receive_dispatch can config s frame)
  unfolding receive_dispatch submit
  receive_dispatch-Keeps wait_ff_sf frame c w =
      bind-Keeps c w _ _ (process_ff_sf-Keeps frame c w) (λ c' w'. (refl, refl, refl, refl))
  receive_dispatch-Keeps wait_cf frame c w =
      bind-Keeps c w _ _ (process_cf-Keeps frame c w) submit_unless_waiting-Keeps
  receive_dispatch-Keeps process_sf frame c w = (refl, refl, refl, refl)
  receive_dispatch-Keeps _ frame c w = (refl, refl, refl, refl)
