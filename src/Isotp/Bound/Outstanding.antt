-- ===== src/Isotp/Bound/Outstanding.antt =====
-- A message that is given up while the driver still holds a frame of it (src/can/zephyr/isotp/isotp_fast.c).
use thingsetplusplus.Prelude.{
  ℕ, ◌+◌, ◌<◌, ◌≡◌, refl, ap, Bool, false, List, [], ◌∷◌, ◌++◌, none, some,
}
use thingsetplusplus.Isotp.{Driver, Config, SendCtx, TxState, wait_fc, send_work, timeout_bs, World}
use thingsetplusplus.Isotp.Receive.{submit, enqueue}
use thingsetplusplus.Isotp.Send.{
  send_state_machine, send_case, on_tx_end, free_send_ctx, send_timeout_handler, send_report_error,
  is_send_cf,
}
use thingsetplusplus.Isotp.Bound.{
  Bound, find, send_addr, send_expired, run_work, run_next, work_handler, commit_send, frame_done,
}
use thingsetplusplus.Isotp.Bound.Contexts.{find-last, put-last, remove-last}
use thingsetplusplus.Isotp.Bound.Handlers.{
  send_timer_expires, work_runs, frame_completes, on_event, on_events, and_then,
}

module _ {D : Type 0} (can : Driver D) (config : Config) (fuel : ℕ) (b : Bound D)
    (others : List SendCtx) (c : SendCtx) (w : World D)
    (absent : find send_addr c.tx_addr others ≡ none) (waits : c.state ≡ wait_fc)
    (idle : w.queue ≡ []) where
  abbrev having_send : SendCtx → World D → Bound D
  having_send c' w' = record b { sending = others ++ c' ∷ []; world = w' }

  abbrev late : SendCtx
  late = send_report_error timeout_bs (record c { timer = none })

  expires :
      send_expired can config c.tx_addr (having_send c w)
      ≡ some (having_send late (record w { queue = send_work c.tx_addr ∷ [] }))
  unfolding send_expired send_timeout_handler commit_send send_report_error submit is_send_cf
  expires =
      let no_cf : is_send_cf can config c.state ≡ false =
        ap (λ (s : TxState). is_send_cf can config s) waits in
      let queued_ : enqueue (send_work c.tx_addr) w.queue ≡ send_work c.tx_addr ∷ [] =
        ap (enqueue (send_work c.tx_addr)) idle in
      rw
        (
          find-last send_addr others c absent,
          send_expired,
          no_cf,
          queued_,
          put-last send_addr others c late absent refl,
        )
        refl

  gives_up :
      run_work can config fuel (having_send late (record w { queue = send_work c.tx_addr ∷ [] }))
      ≡ some (record b {
        sending = others;
        world = record w {
          queue = [];
          free_send = w.free_send + 1;
          finished = w.finished ++ (c.tx_addr, some timeout_bs) ∷ [];
        };
      })
  unfolding run_work run_next work_handler send_state_machine send_case on_tx_end free_send_ctx
      commit_send send_report_error
  gives_up =
      rw
        (
          find-last send_addr others late absent,
          work_handler,
          remove-last send_addr others late absent,
        )
        refl

  -- If the flow control for a message does not arrive in time, the application is told so and the context is freed,
  -- also while the driver still holds it for a frame of the message: the completion of that frame, whether it
  -- could be sent or not, accesses a freed context. For a bound context with a single context for the address
  -- and no work to do.
  pub timeout-outstanding :
      0 < c.pending_cb
      → (b' : Bound D) × (on_events can config fuel
            (send_timer_expires c.tx_addr ∷ work_runs ∷ [])
            (record b { sending = others ++ c ∷ []; world = w })
          ≡ some b')
        × (b'.sending ≡ others)
        × (b'.world.free_send ≡ w.free_send + 1)
        × (b'.world.finished ≡ w.finished ++ (c.tx_addr, some timeout_bs) ∷ [])
        × ((error : Bool) → on_event can config fuel (frame_completes error c.tx_addr) b' ≡ none)
  unfolding on_events on_event and_then frame_done
  timeout-outstanding outstanding = (
    record b {
      sending = others;
      world = record w {
        queue = [];
        free_send = w.free_send + 1;
        finished = w.finished ++ (c.tx_addr, some timeout_bs) ∷ [];
      };
    },
    rw (expires, gives_up) refl,
    refl,
    refl,
    refl,
    λ error. rw (absent, frame_done) refl,
  )
