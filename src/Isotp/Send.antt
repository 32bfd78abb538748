-- ===== src/Isotp/Send.antt =====
-- The sending side of src/can/zephyr/isotp/isotp_fast.c: the first and the consecutive frames, the state machine that
-- runs as work, flow control from the receiver, and the completion callbacks.
pub mod Emission
pub mod Answered
pub mod Rounds
pub mod Keeps
pub mod Whole
pub mod Loop
pub mod Progress
pub mod Waiting
use thingsetplusplus.Prelude.{
  ℕ, zero, suc, ◌+◌, ◌-◌, ◌*◌, ◌/◌, ◌%◌, ◌^◌, ◌≤◌, ◌≡◌, Bool, true, false, not, ◌&&◌, ◌||◌, List,
  [], ◌∷◌, ◌++◌, Option, none, some, length, take, drop, bit_and, bit_or, ◌==◌, ltb, leb,
  if◌then◌else◌,
}
use thingsetplusplus.Bytes.{Bytes}
use thingsetplusplus.Isotp.{
  CanFrame, SendResult, queued, again, failure, Driver, IsotpError, timeout_a, timeout_bs,
  invalid_fs, unexp_pdu, wft_ovrn, buffer_overflow, other_error, TxState, reset, send_sf, send_ff,
  wait_fc, send_cf, wait_st, wait_backlog, wait_fin, tx_err, Config, SendCtx, Work, send_work,
  World, Run, live, freed, fault, stuck, ◌>>=◌, byte_at, pci_type, pci_type_ff, pci_type_cf,
  pci_type_fc, fs_cts, fs_wait, fs_ovflw,
}
use thingsetplusplus.Isotp.Receive.{submit}

unfoldable pub send_report_error : IsotpError → SendCtx → SendCtx
send_report_error e c = record c { state = tx_err; error = some e }

unfoldable pub free_send_ctx : {D : Type 0} → SendCtx → World D → Run SendCtx D
free_send_ctx c w = freed (record w { free_send = w.free_send + 1 })

-- In milliseconds or, where the flag is set, in microseconds.
unfoldable pub stmin_to_timeout : ℕ → Bool × ℕ
stmin_to_timeout stmin =
    if ltb 0xFA stmin || (ltb 0x7F stmin && ltb stmin 0xF1)
    then (false, 0x7F)
    else if leb 0xF1 stmin
    then (true, (stmin + 1 - 0xF1) * 100)
    else (false, stmin)

abbrev pub in_us : Bool × ℕ → ℕ
in_us (true, t) = t
in_us (false, t) = t * 1000

unfoldable pub after_tx : {D : Type 0} → TxState → SendCtx → World D → Run SendCtx D
unfolding submit
after_tx wait_backlog c w =
    if ltb 0 c.backlog
    then live c w
    else live (record c { state = wait_fin }) (submit (send_work c.tx_addr) w)
after_tx _ c w = live c (submit (send_work c.tx_addr) w)

-- The error that the driver reports is not looked at; the semaphore counts to 1.
unfoldable pub send_can_tx_callback : {D : Type 0} → Bool → SendCtx → World D → Run SendCtx D
unfolding after_tx
send_can_tx_callback error c w =
    after_tx c.state
      (record c { pending_cb = c.pending_cb - 1; backlog = (c.backlog + 255) % 256; sem = 1 }) w

module _ {D : Type 0} (can : Driver D) (config : Config) where
  unfoldable pub prepare_frame : ℕ → ℕ → Bytes → CanFrame
  prepare_frame can_id dlc bytes = record {
    id = can_id;
    fdf = config.fdf;
    dlc = dlc;
    bytes = bytes ++ can.garbage;
  }

  unfoldable pub ff_header : ℕ → Bytes
  ff_header len =
      if ltb 0xFFF len
      then pci_type_ff
        ∷ 0
        ∷ (len / 2 ^ 24 % 256)
        ∷ (len / 2 ^ 16 % 256)
        ∷ (len / 2 ^ 8 % 256)
        ∷ (len % 256)
        ∷ []
      else bit_or pci_type_ff (len / 2 ^ 8) ∷ (len % 256) ∷ []

  -- What `can_send` leaves: the frame is queued and a callback outstanding, or not.
  unfoldable pub queue_frame : CanFrame → SendCtx → World D → SendResult × SendCtx × World D
  queue_frame frame c w =
      let (ret, d) = can.can_send frame w.driver in
      let w' : World D = record w { driver = d } in
      elim ret [
        | queued ↦ (
          queued,
          record c { pending_cb = c.pending_cb + 1 },
          record w' { frames = w.frames ++ frame ∷ [] },
        )
        | again ↦ (again, c, w')
        | failure ↦ (failure, c, w')
      ]

  unfoldable pub send_first : SendCtx → World D → SendResult × SendCtx × World D
  unfolding prepare_frame ff_header queue_frame
  send_first c w =
      let header = ff_header c.rem_len in
      let room = can.max_dlen - length header in
      let size = if ltb c.rem_len room then c.rem_len else room in
      let frame =
        prepare_frame c.tx_addr (can.bytes_to_dlc can.max_dlen) (header ++ take size c.source) in
      queue_frame frame
        (record c { sn = 1; rem_len = c.rem_len - size; source = drop size c.source }) w

  -- The context's bookkeeping where the frame was queued.
  unfoldable pub count_cf : SendResult → SendCtx → SendCtx
  count_cf queued c = record c {
    sn = (c.sn + 1) % 16;
    bs = (c.bs + 255) % 256;
    backlog = (c.backlog + 1) % 256;
  }
  count_cf again c = c
  count_cf failure c = c

  unfoldable pub send_consecutive : SendCtx → World D → SendResult × SendCtx × World D
  unfolding prepare_frame queue_frame count_cf
  send_consecutive c w =
      let room = can.max_dlen - 1 in
      let len = if ltb c.rem_len room then c.rem_len else room in
      let frame =
        prepare_frame c.tx_addr (can.bytes_to_dlc (len + 1))
          (bit_or pci_type_cf c.sn ∷ take len c.source) in
      let (ret, c', w') =
        queue_frame frame (record c { rem_len = c.rem_len - len; source = drop len c.source }) w in
      (ret, count_cf ret c', w')

  -- What follows a consecutive frame that was queued: whether the loop goes on, and the context.
  unfoldable pub next_state : SendCtx → Bool × SendCtx
  next_state c =
      if c.rem_len == 0
      then (false, record c { state = wait_backlog })
      else if not (config.bs == 0) && c.bs == 0
      then (false, record c { timer = some config.bs_timeout; state = wait_fc })
      else if not (c.stmin == 0)
      then (false, record c { state = wait_st })
      else (true, c)

  unfoldable pub on_wait_frame : SendCtx → SendCtx
  unfolding send_report_error
  on_wait_frame c =
      let timed : SendCtx = record c { timer = some config.bs_timeout; wft = (c.wft + 1) % 256 } in
      if leb config.wft_max c.wft then send_report_error wft_ovrn timed else timed

  unfoldable pub send_process_fc : CanFrame → SendCtx → SendCtx
  unfolding send_report_error on_wait_frame
  send_process_fc frame c =
      let fs = bit_and (byte_at frame 0) 0x0F in
      if not (pci_type frame == pci_type_fc)
      then send_report_error unexp_pdu c
      else if fs == fs_cts
      then record c {
        state = send_cf;
        wft = 0;
        backlog = 0;
        sem = 0;
        bs = byte_at frame 1;
        stmin = byte_at frame 2;
      }
      else if fs == fs_wait
      then on_wait_frame c
      else if fs == fs_ovflw
      then send_report_error buffer_overflow c
      else send_report_error invalid_fs c

  unfoldable pub is_wait_fc : TxState → Bool
  is_wait_fc wait_fc = true
  is_wait_fc _ = false

  unfoldable pub send_can_rx : CanFrame → SendCtx → World D → Run SendCtx D
  unfolding send_process_fc send_report_error is_wait_fc submit
  send_can_rx frame c w =
      live
        (if is_wait_fc c.state
          then send_process_fc frame (record c { timer = none })
          else send_report_error unexp_pdu c)
        (submit (send_work c.tx_addr) w)

  -- The flow control for this message that arrives while the thread sends.
  unfoldable pub interrupted : List CanFrame → SendCtx → World D → Run SendCtx D
  unfolding send_can_rx
  interrupted [] c w = live c w
  interrupted (frame ∷ frames) c w = send_can_rx frame c w >>= interrupted frames

  -- `k_sem_take(…, K_FOREVER)`: where the count is 0, the thread waits until the driver completes a frame.
  unfoldable pub wait_sem : SendCtx → World D → Run SendCtx D
  unfolding send_can_tx_callback
  wait_sem c w =
      if c.sem == 0
      then (send_can_tx_callback false c w >>= λ c' w'. live (record c' { sem = 0 }) w')
      else live (record c { sem = c.sem - 1 }) w

  unfoldable pub take_sem : SendCtx → World D → Run SendCtx D
  unfolding interrupted wait_sem
  take_sem c w = interrupted (can.meanwhile w.driver) c w >>= wait_sem

  -- The body of the loop behind `send_cf`, given the loop.
  unfoldable pub after_send_cf :
      (SendCtx → World D → Run SendCtx D) → SendResult × SendCtx × World D → Run SendCtx D
  unfolding next_state send_report_error take_sem
  after_send_cf loop (queued, c, w) =
      let (goes_on, next) = next_state c in
      if goes_on then (take_sem next w >>= loop) else live next w
  after_send_cf loop (again, c, w) = live (send_report_error timeout_a c) w
  after_send_cf loop (failure, c, w) = live (send_report_error other_error c) w

  -- `do … while (ret > 0)` with a step of the fuel for each frame.
  unfoldable pub send_loop : ℕ → SendCtx → World D → Run SendCtx D
  unfolding send_consecutive after_send_cf
  send_loop zero c w = stuck
  send_loop (suc fuel) c w = after_send_cf (send_loop fuel) (send_consecutive c w)

  unfoldable pub on_send_ff : SendCtx → World D → Run SendCtx D
  unfolding send_first
  on_send_ff c w =
      let (ret, c', w') = send_first c w in
      live (record c' { timer = some config.bs_timeout; state = wait_fc }) w'

  unfoldable pub on_tx_end : Option IsotpError → SendCtx → World D → Run SendCtx D
  unfolding free_send_ctx
  on_tx_end result c w =
      free_send_ctx (record c { timer = none; state = reset })
        (record w { finished = w.finished ++ (c.tx_addr, result) ∷ [] })

  unfoldable pub send_case : TxState → ℕ → SendCtx → World D → Run SendCtx D
  unfolding on_send_ff send_loop stmin_to_timeout on_tx_end
  send_case send_ff fuel c w = on_send_ff c w
  send_case send_cf fuel c w = send_loop fuel (record c { timer = none }) w
  send_case wait_st fuel c w =
      live (record c { timer = some (in_us (stmin_to_timeout c.stmin)); state = send_cf }) w
  send_case tx_err fuel c w = on_tx_end c.error c w
  send_case wait_fin fuel c w = on_tx_end none c w
  send_case reset fuel c w = live c w
  send_case send_sf fuel c w = live c w
  send_case wait_fc fuel c w = live c w
  send_case wait_backlog fuel c w = live c w

  unfoldable pub send_state_machine : ℕ → SendCtx → World D → Run SendCtx D
  unfolding send_case
  send_state_machine fuel c w = send_case c.state fuel c w

  unfoldable pub is_send_cf : TxState → Bool
  is_send_cf send_cf = true
  is_send_cf _ = false

  unfoldable pub send_timeout_handler : SendCtx → World D → Run SendCtx D
  unfolding is_send_cf send_report_error submit
  send_timeout_handler c w =
      live (if is_send_cf c.state then c else send_report_error timeout_bs c)
        (submit (send_work c.tx_addr) w)

  unfoldable pub new_send_ctx : ℕ → SendCtx
  new_send_ctx addr = record {
    tx_addr = addr;
    timer = none;
    sem = 0;
    source = [];
    rem_len = 0;
    state = send_ff;
    error = none;
    wft = 0;
    bs = config.bs;
    sn = 0;
    backlog = 0;
    stmin = config.stmin;
    pending_cb = 0;
  }
