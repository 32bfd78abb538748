-- ===== src/Isotp/Bound.antt =====
-- A bound context of src/can/zephyr/isotp/isotp_fast.c: its contexts, the frames that arrive, the work that runs, the
-- timers and the completion callbacks.
-- The slabs and pools are not shared with other bound contexts; what a new context does not set is 0.
pub mod Contexts
pub mod Arrival
pub mod Balance
pub mod Events
pub mod Handlers
pub mod Unbind
pub mod Errors
pub mod Outstanding
pub mod Message
pub mod Fragment
pub mod Begun
pub mod Delivered
use thingsetplusplus.Prelude.{
  ℕ, zero, suc, ◌+◌, ◌-◌, ◌*◌, ◌%◌, Bool, true, false, not, ◌&&◌, ◌||◌, List, [], ◌∷◌, ◌++◌, Option,
  none, some, length, take, bit_or, ◌==◌, ltb, leb, if◌then◌else◌,
}
use thingsetplusplus.Bytes.{Bytes}
use thingsetplusplus.Isotp.{
  CanFrame, SendResult, queued, again, failure, Driver, IsotpError, other_error, unbound, TxState,
  send_ff, Config, RecvCtx, SendCtx, Work, recv_work, send_work, World, Run, live, freed, fault,
  stuck, ◌>>=◌, pci_type, pci_type_sf, pci_type_ff, pci_type_fc, get_tx_addr_fixed,
}
use thingsetplusplus.Isotp.Receive.{
  same_work, submit, new_recv_ctx, receive_dispatch, receive_state_machine, receive_report_error,
  receive_timeout_handler,
}
use thingsetplusplus.Isotp.Send.{
  new_send_ctx, prepare_frame, send_state_machine, send_can_rx, send_can_tx_callback,
  send_timeout_handler, send_report_error,
}

-- `struct isotp_fast_ctx`, and the contexts that were orphaned; without a filter no frame arrives.
pub record Bound (D : Type 0) : Type 0 where
  pub receiving : List RecvCtx
  pub sending : List SendCtx
  pub recv_orphans : List RecvCtx
  pub send_orphans : List SendCtx
  pub filter : Bool
  pub world : World D

-- The lists of contexts, by address.
module _ {C : Type 0} (address : C → ℕ) where
  unfoldable pub find : ℕ → List C → Option C
  find a [] = none
  find a (c ∷ cs) = if address c == a then some c else find a cs

  unfoldable pub put : C → List C → List C
  put c [] = []
  put c (d ∷ ds) = if address d == address c then c ∷ ds else d ∷ put c ds

  unfoldable pub remove : ℕ → List C → List C
  remove a [] = []
  remove a (c ∷ cs) = if address c == a then cs else c ∷ remove a cs

abbrev pub recv_addr : RecvCtx → ℕ
recv_addr c = c.rx_addr

abbrev pub send_addr : SendCtx → ℕ
send_addr c = c.tx_addr

pub data Lookup (C : Type 0) : Type 0 where
  got : C → Lookup C
  no_context : Lookup C
  no_ctx_left : Lookup C
  no_buf_left : Lookup C

-- What `isotp_fast_send` returns.
pub data SendCode : Type 0 where
  ok_code : SendCode
  no_net_buf_left : SendCode
  too_long : SendCode
  driver_error : SendCode

-- What a run on a context leaves of the bound context; `none` is a fault.
module _ {D : Type 0} where
  unfoldable pub commit_recv : ℕ → Bound D → Run RecvCtx D → Option (Bound D)
  unfolding put remove
  commit_recv a b (live c w) =
      some (record b { receiving = put recv_addr c b.receiving; world = w })
  commit_recv a b (freed w) =
      some (record b { receiving = remove recv_addr a b.receiving; world = w })
  commit_recv a b fault = none
  commit_recv a b stuck = none

  unfoldable pub commit_send : ℕ → Bound D → Run SendCtx D → Option (Bound D)
  unfolding put remove
  commit_send a b (live c w) = some (record b { sending = put send_addr c b.sending; world = w })
  commit_send a b (freed w) = some (record b { sending = remove send_addr a b.sending; world = w })
  commit_send a b fault = none
  commit_send a b stuck = none

  -- The context exists: it gets a new fragment, or is freed.
  unfoldable pub extend_recv_ctx : RecvCtx → Bound D → Lookup RecvCtx × Bound D
  unfolding put remove
  extend_recv_ctx c b =
      let w = b.world in
      let c' : RecvCtx = record c { buffer = c.buffer ++ c.frag ∷ []; frag = [] } in
      if w.free_bufs == 0
      then (
        no_buf_left,
        record b {
          receiving = remove recv_addr c.rx_addr b.receiving;
          world = record w {
            free_recv = w.free_recv + 1;
            free_bufs = w.free_bufs + suc (length c.buffer);
          };
        },
      )
      else (
        got c',
        record b {
          receiving = put recv_addr c' b.receiving;
          world = record w { free_bufs = w.free_bufs - 1 };
        },
      )

  unfoldable pub create_recv_ctx : ℕ → Bound D → Lookup RecvCtx × Bound D
  unfolding new_recv_ctx
  create_recv_ctx a b =
      let w = b.world in
      let c = new_recv_ctx a in
      if w.free_recv == 0
      then (no_ctx_left, b)
      else if w.free_bufs == 0
      then (no_buf_left, b)
      else (
        got c,
        record b {
          receiving = b.receiving ++ c ∷ [];
          world = record w { free_recv = w.free_recv - 1; free_bufs = w.free_bufs - 1 };
        },
      )

  unfoldable pub get_recv_ctx : ℕ → Bool → Bound D → Lookup RecvCtx × Bound D
  unfolding find extend_recv_ctx create_recv_ctx
  get_recv_ctx a create_if_not_found b = elim (find recv_addr a b.receiving) [
    | some c ↦ extend_recv_ctx c b
    | none ↦ if create_if_not_found then create_recv_ctx a b else (no_context, b)
  ]

module _ {D : Type 0} (can : Driver D) (config : Config) where
  unfoldable pub get_send_ctx : ℕ → Bool → Bound D → Lookup SendCtx × Bound D
  unfolding find new_send_ctx
  get_send_ctx a create_if_not_found b =
      let w = b.world in
      let c = new_send_ctx can config a in
      elim (find send_addr a b.sending) [
        | some c ↦ (got c, b)
        | none ↦
            if not create_if_not_found
            then (no_context, b)
            else if w.free_send == 0
            then (no_ctx_left, b)
            else (
              got c,
              record b {
                sending = b.sending ++ c ∷ [];
                world = record w { free_send = w.free_send - 1 };
              },
            )
      ]

  unfoldable pub on_recv_lookup : ℕ → CanFrame → Lookup RecvCtx × Bound D → Option (Bound D)
  unfolding receive_dispatch commit_recv
  on_recv_lookup sender_addr frame (got c, b) =
      commit_recv sender_addr b (receive_dispatch can config c.state frame c b.world)
  on_recv_lookup sender_addr frame (no_context, b) = some b
  on_recv_lookup sender_addr frame (no_ctx_left, b) = some b
  on_recv_lookup sender_addr frame (no_buf_left, b) = some b

  unfoldable pub receive_can_rx : ℕ → CanFrame → Bound D → Option (Bound D)
  unfolding get_recv_ctx on_recv_lookup
  receive_can_rx sender_addr frame b =
      let create_context = pci_type frame == pci_type_ff || pci_type frame == pci_type_sf in
      on_recv_lookup sender_addr frame (get_recv_ctx sender_addr create_context b)

  unfoldable pub on_send_lookup : ℕ → CanFrame → Lookup SendCtx × Bound D → Option (Bound D)
  unfolding send_can_rx commit_send
  on_send_lookup reply_addr frame (got c, b) =
      commit_send reply_addr b (send_can_rx can config frame c b.world)
  on_send_lookup reply_addr frame (no_context, b) = some b
  on_send_lookup reply_addr frame (no_ctx_left, b) = some b
  on_send_lookup reply_addr frame (no_buf_left, b) = some b

  unfoldable pub receive_fc : ℕ → CanFrame → Bound D → Option (Bound D)
  unfolding get_send_ctx on_send_lookup
  receive_fc reply_addr frame b = on_send_lookup reply_addr frame (get_send_ctx reply_addr false b)

  unfoldable pub can_rx_callback : CanFrame → Bound D → Option (Bound D)
  unfolding get_tx_addr_fixed receive_fc receive_can_rx
  can_rx_callback frame b =
      if not b.filter
      then some b
      else if pci_type frame == pci_type_fc
      then receive_fc (get_tx_addr_fixed config frame.id) frame b
      else receive_can_rx frame.id frame b

  -- `receive_work_handler` and `send_work_handler`; the fuel is for the depth of the first's calls and for the
  -- rounds of the second's loop.
  unfoldable pub work_handler : ℕ → Work → Bound D → Option (Bound D)
  unfolding find receive_state_machine send_state_machine commit_recv commit_send
  work_handler fuel (recv_work a) b = elim (find recv_addr a b.receiving) [
    | some c ↦ commit_recv a b (receive_state_machine can config fuel c b.world)
    | none ↦ none
  ]
  work_handler fuel (send_work a) b = elim (find send_addr a b.sending) [
    | some c ↦ commit_send a b (send_state_machine can config fuel c b.world)
    | none ↦ none
  ]

  -- The work queue runs its first item.
  unfoldable pub run_next : ℕ → List Work → Bound D → Option (Bound D)
  unfolding work_handler
  run_next fuel [] b = some b
  run_next fuel (i ∷ is) b =
      work_handler fuel i (record b { world = record b.world { queue = is } })

  unfoldable pub run_work : ℕ → Bound D → Option (Bound D)
  unfolding run_next
  run_work fuel b = run_next fuel b.world.queue b

  -- A timer that has expired does not run any more.
  unfoldable pub recv_expired : ℕ → Bound D → Option (Bound D)
  unfolding find receive_timeout_handler commit_recv
  recv_expired a b = elim (find recv_addr a b.receiving) [
    | some c ↦ commit_recv a b (receive_timeout_handler (record c { timer = none }) b.world)
    | none ↦ none
  ]

  unfoldable pub send_expired : ℕ → Bound D → Option (Bound D)
  unfolding find send_timeout_handler commit_send
  send_expired a b = elim (find send_addr a b.sending) [
    | some c ↦ commit_send a b (send_timeout_handler can config (record c { timer = none }) b.world)
    | none ↦ none
  ]

  -- The driver has sent a flow control frame, or failed to.
  unfoldable pub receive_can_tx : Bool → RecvCtx → World D → Run RecvCtx D
  unfolding receive_report_error submit
  receive_can_tx error c w =
      let c' : RecvCtx = record c { pending_cb = c.pending_cb - 1 } in
      if error
      then live (receive_report_error other_error c') (submit (recv_work c.rx_addr) w)
      else live c' w

  unfoldable pub fc_done : Bool → ℕ → Bound D → Option (Bound D)
  unfolding find receive_can_tx commit_recv
  fc_done error a b = elim (find recv_addr a b.receiving) [
    | some c ↦ commit_recv a b (receive_can_tx error c b.world)
    | none ↦ none
  ]

  -- The driver has sent a first or consecutive frame.
  unfoldable pub frame_done : Bool → ℕ → Bound D → Option (Bound D)
  unfolding find send_can_tx_callback commit_send
  frame_done error a b = elim (find send_addr a b.sending) [
    | some c ↦ commit_send a b (send_can_tx_callback error c b.world)
    | none ↦ none
  ]
