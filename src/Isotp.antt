-- ===== src/Isotp.antt =====
-- src/can/zephyr/isotp/isotp_fast.c, with isotp_fast_internal.h and isotp_internal.h beside it: ISO-TP, which
-- carries messages of up to 4095 bytes over CAN frames. This file has the data; Isotp/Receive.antt is the
-- receiving side, Isotp/Send.antt the sending side, Isotp/Bound.antt the two on one bound context,
-- and Isotp/Calls.antt what the application calls.
-- As built by zephyr/Kconfig: fixed addressing, without per-frame dispatch and without blocking receive.
-- Zephyr's CAN driver is the parameter `Driver`.
pub mod Receive
pub mod Send
pub mod Bound
pub mod Calls
pub mod Pci
pub mod Segments
pub mod Carried
mod Examples
use thingsetplusplus.Prelude.{
  ℕ, ◌+◌, ◌*◌, ◌/◌, ◌^◌, ◌≤◌, ◌≡◌, Bool, List, Option, get_or, bit_and, bit_or, if◌then◌else◌, ◌==◌,
}
use thingsetplusplus.Bytes.{Bytes}

-- `struct can_frame`; `bytes` is its `data`, all of it.
pub record CanFrame : Type 0 where
  pub id : ℕ
  pub fdf : Bool
  pub dlc : ℕ
  pub bytes : Bytes

-- What `can_send` returns: 0, -EAGAIN, another error.
pub data SendResult : Type 0 where
  queued : SendResult
  again : SendResult
  failure : SendResult

-- CAN_MAX_DLEN, the codes of lengths, `can_send`, what uninitialised memory holds, and the
-- frames for a message that arrive while its sending loop waits for a frame to complete.
pub record Driver (D : Type 0) : Type 0 where
  pub max_dlen : ℕ
  pub ff_dl_min : ℕ
  pub bytes_to_dlc : ℕ → ℕ
  pub dlc_to_bytes : ℕ → ℕ
  pub can_send : CanFrame → D → SendResult × D
  pub garbage : Bytes
  pub meanwhile : D → List CanFrame

pub data IsotpError : Type 0 where
  timeout_a : IsotpError
  timeout_bs : IsotpError
  timeout_cr : IsotpError
  wrong_sn : IsotpError
  invalid_fs : IsotpError
  unexp_pdu : IsotpError
  wft_ovrn : IsotpError
  buffer_overflow : IsotpError
  other_error : IsotpError

pub data RxState : Type 0 where
  wait_ff_sf : RxState
  process_sf : RxState
  process_ff : RxState
  try_alloc : RxState
  send_fc : RxState
  wait_cf : RxState
  send_wait : RxState
  rx_err : RxState
  recycle : RxState
  unbound : RxState

pub data TxState : Type 0 where
  reset : TxState
  send_sf : TxState
  send_ff : TxState
  wait_fc : TxState
  send_cf : TxState
  wait_st : TxState
  wait_backlog : TxState
  wait_fin : TxState
  tx_err : TxState

-- The build's options and the bound context's `opts`; the callbacks for errors are set.
pub record Config : Type 0 where
  pub fd_mode : Bool
  pub max_packet_count : ℕ
  pub wft_max : ℕ
  pub cr_timeout : ℕ
  pub bs_timeout : ℕ
  pub alloc_timeout : ℕ
  pub bs : ℕ
  pub stmin : ℕ
  pub fdf : Bool
  pub sa_mask : ℕ
  pub ta_mask : ℕ
  pub prio_mask : ℕ

-- `struct isotp_fast_recv_ctx`; of `buffer`, the fragments in order, the last one is `frag`.
pub record RecvCtx : Type 0 where
  pub rx_addr : ℕ
  pub timer : Option ℕ
  pub buffer : List Bytes
  pub frag : Bytes
  pub rem_len : ℕ
  pub state : RxState
  pub error : Option IsotpError
  pub wft : ℕ
  pub bs : ℕ
  pub sn_expected : ℕ
  pub pending_cb : ℕ

-- `struct isotp_fast_send_ctx`; `source` is what is left of the message.
pub record SendCtx : Type 0 where
  pub tx_addr : ℕ
  pub timer : Option ℕ
  pub sem : ℕ
  pub source : Bytes
  pub rem_len : ℕ
  pub state : TxState
  pub error : Option IsotpError
  pub wft : ℕ
  pub bs : ℕ
  pub sn : ℕ
  pub backlog : ℕ
  pub stmin : ℕ
  pub pending_cb : ℕ

-- An item of work that was submitted and has not run: that of a context.
pub data Work : Type 0 where
  recv_work : ℕ → Work
  send_work : ℕ → Work

-- What the contexts share: the free entries of the slabs and of the buffer pool, the work queue, the driver,
-- and what went out: frames, messages, and the results that the callbacks were told.
pub record World (D : Type 0) : Type 0 where
  pub free_recv : ℕ
  pub free_send : ℕ
  pub free_bufs : ℕ
  pub queue : List Work
  pub driver : D
  pub frames : List CanFrame
  pub delivered : List (ℕ × Bytes)
  pub failed : List (ℕ × Option IsotpError)
  pub finished : List (ℕ × Option IsotpError)

-- What a run on a context leaves: the context, or that it was freed; a fault is an access to a freed context or
-- beyond a buffer, and `stuck` that the steps ran out.
pub data Run (C D : Type 0) : Type 0 where
  live : C → World D → Run C D
  freed : World D → Run C D
  fault : Run C D
  stuck : Run C D

infixl 5 ◌>>=◌
abbrev pub ◌>>=◌ : {C D : Type 0} → Run C D → (C → World D → Run C D) → Run C D
live c w >>= f = f c w
freed w >>= f = fault
fault >>= f = fault
stuck >>= f = stuck

abbrev pub byte_at : CanFrame → ℕ → ℕ
byte_at frame i = get_or frame.bytes i 0

-- The type of a frame, and the low half of its first byte.
abbrev pub pci_type : CanFrame → ℕ
pci_type frame = bit_and (byte_at frame 0) 0xF0

abbrev pub pci_type_sf : ℕ
pci_type_sf = 0x00

abbrev pub pci_type_ff : ℕ
pci_type_ff = 0x10

abbrev pub pci_type_cf : ℕ
pci_type_cf = 0x20

abbrev pub pci_type_fc : ℕ
pci_type_fc = 0x30

abbrev pub fs_cts : ℕ
fs_cts = 0

abbrev pub fs_wait : ℕ
fs_wait = 1

abbrev pub fs_ovflw : ℕ
fs_ovflw = 2

-- Source and target address change places; the masks are Zephyr's, the positions 0 and 8.
unfoldable pub get_tx_addr_fixed : Config → ℕ → ℕ
get_tx_addr_fixed config ext_id =
    let sa_new = bit_and ext_id config.ta_mask / 2 ^ 8 in
    let ta_new = bit_and ext_id config.sa_mask in
    bit_or (bit_or (bit_or (bit_and ext_id config.prio_mask) (bit_and ext_id 0xFF0000)) sa_new)
      (ta_new * 2 ^ 8)
