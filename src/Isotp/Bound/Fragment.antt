-- ===== src/Isotp/Bound/Fragment.antt =====
-- One consecutive frame that arrives at a bound context of src/can/zephyr/isotp/isotp_fast.c: what it adds to the message
-- that is being received.
use thingsetplusplus.Prelude.{
  ℕ, suc, ◌+◌, ◌%◌, ◌≤◌, ◌<◌, ◌≡◌, refl, ap, ◌∙◌, ◌⊎◌, inl, inr, true, false, not, ◌&&◌, List, [],
  ◌∷◌, ◌++◌, none, some, length, take, drop, length-append, ◌==◌, if◌then◌else◌, ==_iff, arith,
  Bool-cases,
}
use thingsetplusplus.Bytes.{Bytes}
use thingsetplusplus.Isotp.{
  CanFrame, Driver, Config, RecvCtx, RxState, try_alloc, wait_cf, recycle, Work, recv_work, World,
  Run, live, ◌>>=◌,
}
use thingsetplusplus.Isotp.Segments.{Documented, AlwaysSends, cut, Continues}
use thingsetplusplus.Isotp.Receive.{
  received, after_cf, receive_dispatch, submit_unless_waiting, is_wait_cf, submit, enqueue,
  receive_state_machine, receive_send_fc, fc_frame,
}
use thingsetplusplus.Isotp.Receive.Delivery.{Midway, filled, is_cf, process_cf-next}
use thingsetplusplus.Isotp.Bound.{Bound, find, recv_addr, run_work}
use thingsetplusplus.Isotp.Bound.Arrival.{
  arrive, having, extended, one_less, Kept, Delivers, contents-snoc, arrive-live, run_work-idle,
  run_work-live, run_work-freed,
}

eq_self : (a : ℕ) → (a == a) ≡ true
eq_self a = (==_iff a a).1 refl

module _ {D : Type 0} (a : ℕ) (w : World D) (idle : w.queue ≡ []) where
  pub submit-once : submit (recv_work a) w ≡ record w { queue = recv_work a ∷ [] }
  unfolding submit
  submit-once = ap (λ (q : List Work). record w { queue = enqueue (recv_work a) q }) idle

  pub submit-twice :
      submit (recv_work a) (submit (recv_work a) w) ≡ record w { queue = recv_work a ∷ [] }
  unfolding submit
  submit-twice =
      ap (λ (q : List Work). record w { queue = enqueue (recv_work a) (enqueue (recv_work a) q) })
        idle
      ∙ rw (eq_self a) refl

module _ {D : Type 0} (can : Driver D) (config : Config) (documented : Documented can)
    (sends : AlwaysSends can) (b : Bound D) (open_ : b.filter ≡ true) (others : List RecvCtx)
    (fuel : ℕ) (bs_is_byte : config.bs < 256) where
  module _ (k : ℕ) (before rest : Bytes) (short : length rest ≤ 4095) (frame : CanFrame)
      (next : Continues can k rest frame) (c : RecvCtx) (w : World D)
      (midway : Midway config k before rest c) (absent : find recv_addr c.rx_addr others ≡ none)
      (from : frame.id ≡ c.rx_addr) (room : 0 < w.free_bufs) (idle : w.queue ≡ []) where
    abbrev c1 : RecvCtx
    c1 = filled can config documented rest (extended can config b open_ others c)

    abbrev w1 : World D
    w1 = one_less can config b open_ others w

    dispatch-next :
        receive_dispatch can config c.state frame (extended can config b open_ others c) w1
        ≡ (after_cf can config c1 w1 >>= submit_unless_waiting can config)
    unfolding receive_dispatch
    dispatch-next =
        ap
          (λ (s : RxState).
            receive_dispatch can config s frame (extended can config b open_ others c) w1)
          midway.waiting
        ∙ ap (λ (r : Run RecvCtx D). r >>= submit_unless_waiting can config)
            (process_cf-next can config documented k rest short frame next _ w1 midway.missing
              midway.numbered refl)

    to_work :
        (c' : RecvCtx) (w' : World D)
        → c'.rx_addr ≡ c.rx_addr
        → (after_cf can config c1 w1 >>= submit_unless_waiting can config) ≡ live c' w'
        → arrive can config (suc fuel) frame (having b others c w)
          ≡ run_work can config (suc fuel) (having b others c' w')
    to_work c' w' same e =
        arrive-live can config b open_ others (suc fuel) c c' w w' frame absent from
          (rw (is_cf can config documented k rest short frame next) refl) room same
          (dispatch-next ∙ e)

    arrived : received c1 ≡ before ++ take (cut can) rest
    unfolding received
    arrived = ap (◌++ take (cut can) rest) (contents-snoc c.buffer c.frag ∙ midway.arrived)

    pub arrive-last :
        length (drop (cut can) rest) ≡ 0
        → (w' : World D) × (arrive can config (suc fuel) frame (having b others c w)
            ≡ some (record b { receiving = others; world = w' }))
          × Delivers c.rx_addr (before ++ take (cut can) rest) (suc (length c.buffer)) w w'
    unfolding after_cf submit_unless_waiting receive_state_machine
    arrive-last none_left =
        let c' : RecvCtx = record c1 { state = recycle } in
        let wq : World D = record w1 { queue = recv_work c.rx_addr ∷ [] } in
        let w' : World D = record w1 {
          free_recv = w1.free_recv + 1;
          free_bufs = w1.free_bufs + suc (length c1.buffer);
          queue = [];
          delivered = w.delivered ++ (c.rx_addr, received c1) ∷ [];
        } in
        let done : (length (drop (cut can) rest) == 0) ≡ true = rw none_left refl in
        let e : (after_cf can config c1 w1 >>= submit_unless_waiting can config) ≡ live c' wq =
          rw done (ap (live c') (submit-twice c.rx_addr w1 idle)) in
        (
          w',
          to_work c' wq refl e
              ∙ run_work-freed can config b open_ others (suc fuel) c' wq absent refl w' refl,
          record {
            delivered = ap (λ (m : Bytes). w.delivered ++ (c.rx_addr, m) ∷ []) arrived;
            buffers = omega (arith, length-append c.buffer (c.frag ∷ []));
            failed = refl;
            finished = refl;
            free_recv = omega arith;
            free_send = refl;
            queue = refl;
          },
        )

    -- A block is complete: the receiver answers with flow control.
    block_end :
        (0 < length (drop (cut can) rest))
        → ((config.bs == 0) ≡ false)
        → (((c.bs + 255) % 256 == 0) ≡ true)
        → (c' : RecvCtx) × (w' : World D) × (arrive can config
              (suc fuel)
              frame
              (having b others c w)
            ≡ some (having b others c' w'))
          × Midway config (suc k) (before ++ take (cut can) rest) (drop (cut can) rest) c'
          × Kept c c' w w'
    unfolding after_cf submit_unless_waiting receive_state_machine
    block_end some_left blocks complete =
        let c' : RecvCtx = record c1 { bs = config.bs; state = try_alloc } in
        let wq : World D = record w1 { queue = recv_work c.rx_addr ∷ [] } in
        let fc = fc_frame can config 0 c in
        let c'' : RecvCtx = record c' {
          timer = some config.cr_timeout;
          state = wait_cf;
          pending_cb = c.pending_cb + 1;
        } in
        let w' : World D = record w1 {
          queue = [];
          driver = (can.can_send fc w.driver).1;
          frames = w.frames ++ fc ∷ [];
        } in
        let more : (length (drop (cut can) rest) == 0) ≡ false = ground arith in
        let e : (after_cf can config c1 w1 >>= submit_unless_waiting can config) ≡ live c' wq =
          rw (more, blocks, complete) (ap (live c') (submit-once c.rx_addr w1 idle)) in
        let replied : receive_state_machine can config (suc fuel) c' (record wq { queue = [] })
            ≡ live c'' w' =
          rw (sends fc w.driver, receive_send_fc) refl in
        (
          c'',
          w',
          to_work c' wq refl e
              ∙ run_work-live can config b open_ others (suc fuel) c' wq absent refl c'' w' replied
                  refl,
          record {
            waiting = refl;
            missing = refl;
            arrived = arrived;
            numbered = ground (arith, midway.numbered);
            block = inr (ground arith, omega arith);
          },
          record {
            address = refl;
            buffers = omega (arith, length-append c.buffer (c.frag ∷ []));
            taken = omega arith;
            delivered = refl;
            failed = refl;
            finished = refl;
            free_recv = refl;
            free_send = refl;
            queue = refl;
          },
        )

    -- The next frame is waited for.
    block_goes_on :
        (0 < length (drop (cut can) rest))
        → (n : ℕ) → (if config.bs == 0 then c.bs else (c.bs + 255) % 256) ≡ n
        → (not (config.bs == 0) && n == 0) ≡ false
        → (config.bs ≡ 0) ⊎ ((0 < n) × (n ≤ config.bs))
        → (c' : RecvCtx) × (w' : World D) × (arrive can config
              (suc fuel)
              frame
              (having b others c w)
            ≡ some (having b others c' w'))
          × Midway config (suc k) (before ++ take (cut can) rest) (drop (cut can) rest) c'
          × Kept c c' w w'
    unfolding after_cf submit_unless_waiting is_wait_cf received
    block_goes_on some_left n counted goes_on block =
        let c' : RecvCtx = record c1 { bs = n } in
        let more : (length (drop (cut can) rest) == 0) ≡ false = ground arith in
        let waits : Run RecvCtx D = live c' (submit (recv_work c.rx_addr) w1) in
        let e : (after_cf can config c1 w1 >>= submit_unless_waiting can config) ≡ live c' w1 =
          rw (more, counted, goes_on)
            (ap (λ (s : RxState). if is_wait_cf s then live c' w1 else waits) midway.waiting) in
        (
          c',
          w1,
          to_work c' w1 refl e ∙ run_work-idle can config b open_ others (suc fuel) c' w1 idle,
          record {
            waiting = midway.waiting;
            missing = refl;
            arrived = arrived;
            numbered = ground (arith, midway.numbered);
            block = block;
          },
          record {
            address = refl;
            buffers = omega (arith, length-append c.buffer (c.frag ∷ []));
            taken = omega arith;
            delivered = refl;
            failed = refl;
            finished = refl;
            free_recv = refl;
            free_send = refl;
            queue = idle;
          },
        )

    pub arrive-more :
        0 < length (drop (cut can) rest)
        → (c' : RecvCtx) × (w' : World D) × (arrive can config
              (suc fuel)
              frame
              (having b others c w)
            ≡ some (having b others c' w'))
          × Midway config (suc k) (before ++ take (cut can) rest) (drop (cut can) rest) c'
          × Kept c c' w w'
    arrive-more some_left = elim (Bool-cases (config.bs == 0)) [
      | inl endless ↦
          block_goes_on some_left c.bs (rw endless refl) (rw endless refl) (inl (ground arith))
      | inr blocks ↦ elim (Bool-cases ((c.bs + 255) % 256 == 0)) [
        | inl complete ↦ block_end some_left blocks complete
        | inr goes_on ↦
            block_goes_on some_left ((c.bs + 255) % 256) (rw blocks refl)
              (rw (blocks, goes_on) refl)
              (elim midway.block [
                | inl e ↦ absurd (ground arith)
                | inr (low, high) ↦ inr (ground arith, ground arith)
              ])
      ]
    ]
