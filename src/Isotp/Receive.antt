-- ===== src/Isotp/Receive.antt =====
-- The receiving side of src/can/zephyr/isotp/isotp_fast.c: the frames of a message, the state machine that runs as
-- work, and the timer.
pub mod Delivery
pub mod Keeps
use thingsetplusplus.Prelude.{
  ℕ, zero, suc, ◌+◌, ◌-◌, ◌*◌, ◌/◌, ◌%◌, ◌≤◌, ◌≡◌, Bool, true, false, not, ◌&&◌, List, [], ◌∷◌,
  ◌++◌, Option, none, some, length, take, drop, bit_and, bit_or, ◌==◌, ltb, leb, if◌then◌else◌,
}
use thingsetplusplus.Bytes.{Bytes}
use thingsetplusplus.Isotp.{
  CanFrame, SendResult, queued, again, failure, Driver, IsotpError, timeout_a, timeout_cr, wrong_sn,
  unexp_pdu, buffer_overflow, other_error, RxState, wait_ff_sf, process_sf, process_ff, try_alloc,
  send_fc, wait_cf, send_wait, rx_err, recycle, unbound, Config, RecvCtx, Work, recv_work,
  send_work, World, Run, live, freed, fault, stuck, ◌>>=◌, byte_at, pci_type, pci_type_sf,
  pci_type_ff, pci_type_cf, pci_type_fc, fs_cts, fs_wait, fs_ovflw, get_tx_addr_fixed,
}

-- `k_work_submit`: an item that is in the queue already stays where it is.
unfoldable pub same_work : Work → Work → Bool
same_work (recv_work a) (recv_work b) = a == b
same_work (send_work a) (send_work b) = a == b
same_work (recv_work a) (send_work b) = false
same_work (send_work a) (recv_work b) = false

unfoldable pub enqueue : Work → List Work → List Work
unfolding same_work
enqueue i [] = i ∷ []
enqueue i (j ∷ js) = if same_work j i then j ∷ js else j ∷ enqueue i js

unfoldable pub submit : {D : Type 0} → Work → World D → World D
unfolding enqueue
submit i w = record w { queue = enqueue i w.queue }

unfoldable pub receive_report_error : IsotpError → RecvCtx → RecvCtx
receive_report_error e c = record c { state = rx_err; error = some e }

unfoldable pub is_overflow : Option IsotpError → Bool
is_overflow (some buffer_overflow) = true
is_overflow _ = false

-- The chain of buffers, read in order.
unfoldable pub contents : List Bytes → Bytes
contents [] = []
contents (b ∷ bs) = b ++ contents bs

unfoldable pub received : RecvCtx → Bytes
unfolding contents
received c = contents c.buffer ++ c.frag

unfoldable pub free_recv_ctx : {D : Type 0} → RecvCtx → World D → Run RecvCtx D
free_recv_ctx c w =
    freed
      (record w { free_recv = w.free_recv + 1; free_bufs = w.free_bufs + suc (length c.buffer) })

unfoldable pub receive_get_ff_length : CanFrame → ℕ
receive_get_ff_length frame =
    let len = bit_and (byte_at frame 0) 0x0F * 256 + byte_at frame 1 in
    if len == 0
    then ((byte_at frame 0 * 256 + byte_at frame 1) * 256 + byte_at frame 2) * 256 + byte_at frame 3
    else len

-- The length of a single frame's message, and the index behind it.
unfoldable pub receive_get_sf_length : Config → CanFrame → ℕ × ℕ
receive_get_sf_length config frame =
    let len = bit_and (byte_at frame 0) 0x0F in
    if config.fd_mode && len == 0 then (byte_at frame 1, 2) else (len, 1)

unfoldable pub on_timeout : RxState → RecvCtx → RecvCtx
unfolding receive_report_error
on_timeout wait_cf c = receive_report_error timeout_cr c
on_timeout try_alloc c = record c { state = send_wait }
on_timeout _ c = c

unfoldable pub receive_timeout_handler : {D : Type 0} → RecvCtx → World D → Run RecvCtx D
unfolding on_timeout submit
receive_timeout_handler c w = live (on_timeout c.state c) (submit (recv_work c.rx_addr) w)

unfoldable pub is_wait_cf : RxState → Bool
is_wait_cf wait_cf = true
is_wait_cf _ = false

module _ {D : Type 0} (can : Driver D) (config : Config) where
  unfoldable pub fc_frame : ℕ → RecvCtx → CanFrame
  unfolding get_tx_addr_fixed
  fc_frame fs c = record {
    id = get_tx_addr_fixed config c.rx_addr;
    fdf = config.fdf;
    dlc = can.bytes_to_dlc 3;
    bytes = bit_or pci_type_fc fs ∷ config.bs ∷ config.stmin ∷ can.garbage;
  }

  -- `machine` is `receive_state_machine`.
  unfoldable pub receive_send_fc :
      (RecvCtx → World D → Run RecvCtx D) → ℕ → RecvCtx → World D → Run RecvCtx D
  unfolding receive_report_error fc_frame
  receive_send_fc machine fs c w =
      let frame = fc_frame fs c in
      let (ret, d) = can.can_send frame w.driver in
      let ok : Run RecvCtx D =
        live (record c { pending_cb = c.pending_cb + 1 })
          (record w { driver = d; frames = w.frames ++ frame ∷ [] }) in
      let failing : Run RecvCtx D =
        machine (receive_report_error timeout_a c) (record w { driver = d }) in
      elim ret [ queued ↦ ok | again ↦ failing | failure ↦ failing ]

  -- SEND_FC, and TRY_ALLOC, which falls through to it.
  unfoldable pub on_send_fc :
      (RecvCtx → World D → Run RecvCtx D) → RecvCtx → World D → Run RecvCtx D
  unfolding receive_send_fc
  on_send_fc machine c w = receive_send_fc machine fs_cts c w >>= λ c' w'.
      live (record c' { timer = some config.cr_timeout; state = wait_cf }) w'

  unfoldable pub on_try_alloc :
      (RecvCtx → World D → Run RecvCtx D) → RecvCtx → World D → Run RecvCtx D
  unfolding on_send_fc
  on_try_alloc machine c w = on_send_fc machine (record c { timer = none; state = send_fc }) w

  unfoldable pub on_process_ff :
      (RecvCtx → World D → Run RecvCtx D) → RecvCtx → World D → Run RecvCtx D
  unfolding on_try_alloc receive_report_error
  on_process_ff machine c w =
      if config.bs == 0 && ltb (config.max_packet_count * (can.max_dlen - 1)) c.rem_len
      then machine (receive_report_error buffer_overflow c) w
      else on_try_alloc machine
          (record c {
            bs = if config.bs == 0 then c.bs else config.bs;
            wft = 255;
            state = try_alloc;
          })
          w

  -- The end of ERR and of RECYCLE.
  unfoldable pub unbind_and_free : RecvCtx → World D → Run RecvCtx D
  unfolding free_recv_ctx
  unbind_and_free c w = free_recv_ctx (record c { state = unbound }) w

  unfoldable pub on_err : (RecvCtx → World D → Run RecvCtx D) → RecvCtx → World D → Run RecvCtx D
  unfolding receive_send_fc unbind_and_free is_overflow
  on_err machine c w =
      let c' : RecvCtx = record c { timer = none } in
      let w' : World D = record w { failed = w.failed ++ (c.rx_addr, c.error) ∷ [] } in
      if is_overflow c.error
      then (receive_send_fc machine fs_ovflw c' w' >>= unbind_and_free)
      else unbind_and_free c' w'

  unfoldable pub on_send_wait :
      (RecvCtx → World D → Run RecvCtx D) → RecvCtx → World D → Run RecvCtx D
  unfolding receive_send_fc on_err receive_report_error
  on_send_wait machine c w =
      let c' : RecvCtx = record c { wft = (c.wft + 1) % 256 } in
      if ltb c'.wft config.wft_max
      then (receive_send_fc machine fs_wait c' w >>= λ c'' w'.
          live (record c'' { timer = some config.alloc_timeout; state = try_alloc }) w')
      else on_err machine (receive_report_error buffer_overflow c') w

  unfoldable pub on_recycle : RecvCtx → World D → Run RecvCtx D
  unfolding unbind_and_free received
  on_recycle c w =
      unbind_and_free c (record w { delivered = w.delivered ++ (c.rx_addr, received c) ∷ [] })

  unfoldable pub receive_case :
      RxState → (RecvCtx → World D → Run RecvCtx D) → RecvCtx → World D → Run RecvCtx D
  unfolding on_process_ff on_try_alloc on_send_fc on_send_wait on_err on_recycle
  receive_case process_sf machine c w = machine (record c { rem_len = 0; state = recycle }) w
  receive_case process_ff machine c w = on_process_ff machine c w
  receive_case try_alloc machine c w = on_try_alloc machine c w
  receive_case send_fc machine c w = on_send_fc machine c w
  receive_case send_wait machine c w = on_send_wait machine c w
  receive_case rx_err machine c w = on_err machine c w
  receive_case recycle machine c w = on_recycle c w
  receive_case wait_ff_sf machine c w = live c w
  receive_case wait_cf machine c w = live c w
  receive_case unbound machine c w = live c w

  -- The fuel is the depth of the calls.
  unfoldable pub receive_state_machine : ℕ → RecvCtx → World D → Run RecvCtx D
  unfolding receive_case
  receive_state_machine zero c w = stuck
  receive_state_machine (suc fuel) c w = receive_case c.state (receive_state_machine fuel) c w

  -- `net_buf_add_mem` to the fragment, which has a frame's bytes less one, then the remaining length, which has
  -- 12 bits.
  unfoldable pub add_to_frag : ℕ → ℕ → CanFrame → RecvCtx → World D → Run RecvCtx D
  add_to_frag index n frame c w =
      if leb (length c.frag + n) (can.max_dlen - 1)
      then live
          (record c {
            frag = c.frag ++ take n (drop index frame.bytes);
            rem_len = (c.rem_len + 4096 - n) % 4096;
          })
          w
      else fault

  unfoldable pub process_first : CanFrame → RecvCtx → World D → Run RecvCtx D
  unfolding add_to_frag receive_get_ff_length
  process_first frame c w =
      if frame.dlc == can.ff_dl_min
      then add_to_frag 2 (can.max_dlen - 2) frame
          (record c {
            rem_len = receive_get_ff_length frame % 4096;
            state = process_ff;
            sn_expected = 1;
          })
          w
      else live c w

  unfoldable pub process_single : CanFrame → RecvCtx → World D → Run RecvCtx D
  unfolding add_to_frag receive_get_sf_length
  process_single frame c w =
      let (len, index) = receive_get_sf_length config frame in
      let payload_len = if ltb (can.max_dlen - index) len then can.max_dlen - index else len in
      if ltb (can.dlc_to_bytes frame.dlc) payload_len
      then live (record c { rem_len = len }) w
      else add_to_frag index payload_len frame (record c { rem_len = len; state = process_sf }) w

  unfoldable pub process_ff_sf : CanFrame → RecvCtx → World D → Run RecvCtx D
  unfolding process_first process_single receive_report_error submit
  process_ff_sf frame c w =
      if pci_type frame == pci_type_ff
      then process_first frame c w
      else if pci_type frame == pci_type_sf
      then process_single frame c w
      else live (receive_report_error unexp_pdu c) (submit (recv_work c.rx_addr) w)

  -- What follows the bytes of a consecutive frame: the end of the message, of a block, or neither.
  unfoldable pub after_cf : RecvCtx → World D → Run RecvCtx D
  unfolding submit
  after_cf c w =
      let bs = if config.bs == 0 then c.bs else (c.bs + 255) % 256 in
      if c.rem_len == 0
      then live (record c { state = recycle }) (submit (recv_work c.rx_addr) w)
      else if not (config.bs == 0) && bs == 0
      then live (record c { bs = config.bs; state = try_alloc }) w
      else live (record c { bs = bs }) w

  -- Without data, the length is -1, which as an unsigned number no buffer has room for.
  unfoldable pub process_cf : CanFrame → RecvCtx → World D → Run RecvCtx D
  unfolding receive_report_error submit add_to_frag after_cf
  process_cf frame c w =
      let room = can.dlc_to_bytes frame.dlc in
      let data_len = if ltb c.rem_len (room - 1) then c.rem_len else room - 1 in
      let timed : RecvCtx = record c {
        timer = some config.cr_timeout;
        sn_expected = (c.sn_expected + 1) % 16;
      } in
      if not (pci_type frame == pci_type_cf)
      then live (receive_report_error unexp_pdu c) (submit (recv_work c.rx_addr) w)
      else if not (bit_and (byte_at frame 0) 0x0F == c.sn_expected)
      then live (receive_report_error wrong_sn timed) (submit (recv_work c.rx_addr) w)
      else if room == 0
      then fault
      else (add_to_frag 1 data_len frame timed w >>= after_cf)

  unfoldable pub submit_unless_waiting : RecvCtx → World D → Run RecvCtx D
  unfolding is_wait_cf submit
  submit_unless_waiting c w =
      if is_wait_cf c.state then live c w else live c (submit (recv_work c.rx_addr) w)

  -- `receive_can_rx` once the context is there.
  unfoldable pub receive_dispatch : RxState → CanFrame → RecvCtx → World D → Run RecvCtx D
  unfolding process_ff_sf process_cf submit_unless_waiting submit
  receive_dispatch wait_ff_sf frame c w =
      process_ff_sf frame c w >>= λ c' w'. live c' (submit (recv_work c.rx_addr) w')
  receive_dispatch wait_cf frame c w = process_cf frame c w >>= submit_unless_waiting
  receive_dispatch _ frame c w = live c (submit (recv_work c.rx_addr) w)

unfoldable pub new_recv_ctx : ℕ → RecvCtx
new_recv_ctx addr = record {
  rx_addr = addr;
  timer = none;
  buffer = [];
  frag = [];
  rem_len = 0;
  state = wait_ff_sf;
  error = none;
  wft = 0;
  bs = 0;
  sn_expected = 0;
  pending_cb = 0;
}
