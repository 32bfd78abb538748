-- ===== src/Isotp/Calls.antt =====
-- The calls of src/can/zephyr/isotp/isotp_fast.c that the application makes: `isotp_fast_send`, `isotp_fast_bind` and
-- `isotp_fast_unbind`, and the completion of a message of a single frame.
use thingsetplusplus.Prelude.{
  ℕ, suc, ◌+◌, ◌-◌, ◌%◌, Bool, true, false, not, ◌&&◌, List, [], ◌∷◌, ◌++◌, Option, none, some,
  length, ◌==◌, ltb, leb, if◌then◌else◌,
}
use thingsetplusplus.Bytes.{Bytes}
use thingsetplusplus.Isotp.{
  queued, again, failure, Driver, other_error, unbound, TxState, send_ff, Config, RecvCtx, SendCtx,
  Work, recv_work, send_work, World, Run, freed, pci_type_sf,
}
use thingsetplusplus.Isotp.Receive.{same_work, submit}
use thingsetplusplus.Isotp.Send.{prepare_frame, send_report_error}
use thingsetplusplus.Isotp.Bound.{
  Bound, find, put, remove, recv_addr, send_addr, Lookup, got, no_context, no_ctx_left, no_buf_left,
  SendCode, ok_code, no_net_buf_left, too_long, driver_error, commit_send, get_send_ctx,
}

module _ {D : Type 0} (can : Driver D) (config : Config) where
  unfoldable pub is_send_ff : TxState → Bool
  is_send_ff send_ff = true
  is_send_ff _ = false

  unfoldable pub sf_header : ℕ → Bytes
  sf_header len =
      if config.fd_mode && ltb 7 len then pci_type_sf ∷ (len % 256) ∷ [] else (len % 256) ∷ []

  unfoldable pub send_single : Bytes → SendCtx → Bound D → SendCode × Bound D
  unfolding put remove is_send_ff sf_header prepare_frame
  send_single message c b =
      let w = b.world in
      let header = sf_header (length message) in
      let frame =
        prepare_frame can config c.tx_addr (can.bytes_to_dlc (length message + length header))
          (header ++ message) in
      let (ret, d) = can.can_send frame w.driver in
      let sent : SendCode × Bound D = (
        ok_code,
        record b {
          sending = put send_addr (record c { pending_cb = c.pending_cb + 1 }) b.sending;
          world = record w { driver = d; frames = w.frames ++ frame ∷ [] };
        },
      ) in
      let kept : Bound D = record b { world = record w { driver = d } } in
      let unused : Bound D = record b {
        sending = remove send_addr c.tx_addr b.sending;
        world = record w { driver = d; free_send = w.free_send + 1 };
      } in
      let failing : SendCode × Bound D =
        (driver_error, if is_send_ff c.state && c.pending_cb == 0 then unused else kept) in
      elim ret [ queued ↦ sent | again ↦ failing | failure ↦ failing ]

  unfoldable pub send_multiple : Bytes → SendCtx → Bound D → SendCode × Bound D
  unfolding put submit
  send_multiple message c b = (
    ok_code,
    record b {
      sending = put send_addr (record c { source = message; rem_len = length message }) b.sending;
      world = submit (send_work c.tx_addr) b.world;
    },
  )

  unfoldable pub is_single : Bytes → Bool
  is_single message = leb (length message) (can.max_dlen - (if config.fd_mode then 2 else 1))

  unfoldable pub send_on : Bytes → Lookup SendCtx × Bound D → SendCode × Bound D
  unfolding is_single send_single send_multiple
  send_on message (got c, b) =
      if is_single message then send_single message c b else send_multiple message c b
  send_on message (no_context, b) = (no_net_buf_left, b)
  send_on message (no_ctx_left, b) = (no_net_buf_left, b)
  send_on message (no_buf_left, b) = (no_net_buf_left, b)

  unfoldable pub isotp_fast_send : Bytes → ℕ → Bound D → SendCode × Bound D
  unfolding is_single get_send_ctx send_on
  isotp_fast_send message target_addr b =
      if not (is_single message) && ltb 4095 (length message)
      then (too_long, b)
      else send_on message (get_send_ctx can config target_addr true b)

  -- `isotp_fast_sent_single_cb`.
  unfoldable pub sent_single_cb : Bool → SendCtx → World D → Run SendCtx D
  sent_single_cb error c w = freed (record w {
    free_send = w.free_send + 1;
    finished = w.finished ++ (c.tx_addr, if error then some other_error else none) ∷ [];
  })

  unfoldable pub single_done : Bool → ℕ → Bound D → Option (Bound D)
  unfolding find sent_single_cb commit_send
  single_done error a b = elim (find send_addr a b.sending) [
    | some c ↦ commit_send a b (sent_single_cb error c b.world)
    | none ↦ none
  ]

-- `k_work_cancel_sync`.
unfoldable pub cancel : Work → List Work → List Work
unfolding same_work
cancel i [] = []
cancel i (j ∷ js) = if same_work j i then js else j ∷ cancel i js

module _ {D : Type 0} where
  -- The bodies of the two loops of `isotp_fast_unbind`, and the loops over what the lists held.
  unfoldable pub release_recv : RecvCtx → Bound D → Bound D
  unfolding cancel remove
  release_recv c b =
      let w : World D = record b.world { queue = cancel (recv_work c.rx_addr) b.world.queue } in
      let unlinked : Bound D = record b { receiving = remove recv_addr c.rx_addr b.receiving } in
      if c.pending_cb == 0
      then record unlinked {
        world = record w {
          free_recv = w.free_recv + 1;
          free_bufs = w.free_bufs + suc (length c.buffer);
        };
      }
      else record unlinked {
        recv_orphans = b.recv_orphans ++ (record c { timer = none; state = unbound }) ∷ [];
        world = w;
      }

  unfoldable pub unbind_recv : List RecvCtx → Bound D → Bound D
  unfolding release_recv
  unbind_recv [] b = b
  unbind_recv (c ∷ cs) b = unbind_recv cs (release_recv c b)

  unfoldable pub release_send : SendCtx → Bound D → Bound D
  unfolding cancel send_report_error remove
  release_send c b =
      let w : World D = record b.world { queue = cancel (send_work c.tx_addr) b.world.queue } in
      let unlinked : Bound D = record b { sending = remove send_addr c.tx_addr b.sending } in
      if c.pending_cb == 0
      then record unlinked {
        world = record w {
          free_send = w.free_send + 1;
          finished = w.finished ++ (c.tx_addr, some other_error) ∷ [];
        };
      }
      else record unlinked {
        send_orphans =
            b.send_orphans ++ send_report_error other_error (record c { timer = none }) ∷ [];
        world = w;
      }

  unfoldable pub unbind_send : List SendCtx → Bound D → Bound D
  unfolding release_send
  unbind_send [] b = b
  unbind_send (c ∷ cs) b = unbind_send cs (release_send c b)

  unfoldable pub isotp_fast_unbind : Bound D → Bound D
  unfolding unbind_recv unbind_send
  isotp_fast_unbind b =
      let b' = unbind_recv b.receiving (record b { filter = false }) in unbind_send b'.sending b'

  -- `isotp_fast_bind`, given whether the driver has a free filter.
  unfoldable pub isotp_fast_bind : Bool → Bound D → Bool × Bound D
  isotp_fast_bind has_filter b =
      (has_filter, record b { receiving = []; sending = []; filter = has_filter })
