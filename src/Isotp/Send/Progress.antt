-- ===== src/Isotp/Send/Progress.antt =====
-- A message that src/can/zephyr/isotp/isotp_fast.c is sending: what has been queued so far in each of the states, and
-- while the loop waits for the driver.
use thingsetplusplus.Prelude.{
  ◌⊎◌, ℕ, ◌-◌, ◌%◌, ◌≤◌, ◌<◌, ◌≡◌, refl, sym, ap, ◌∙◌, Bool, List, [], ◌∷◌, ◌++◌, Option, none,
  some, length, drop, subst,
}
use thingsetplusplus.Bytes.{Bytes}
use thingsetplusplus.Isotp.{
  CanFrame, Driver, IsotpError, TxState, reset, send_sf, send_ff, wait_fc, send_cf, wait_st,
  wait_backlog, wait_fin, tx_err, Config, SendCtx, World, Run, live, freed, fault, stuck,
}
use thingsetplusplus.Isotp.Segments.{Documented, AlwaysSends, Begins, AreSegments}
use thingsetplusplus.Isotp.Send.{
  send_state_machine, send_can_rx, send_can_tx_callback, send_timeout_handler,
}
use thingsetplusplus.Isotp.Send.Emission.{Chain}
use thingsetplusplus.Isotp.Send.Waiting.{Waited}

-- What can happen to a message that is being sent, as long as its context is not freed.
pub data SendEvent : Type 0 where
  work_runs : SendEvent
  flow_control : CanFrame → SendEvent
  frame_completes : Bool → SendEvent
  timer_expires : SendEvent

module _ {D : Type 0} (can : Driver D) (config : Config) (fuel : ℕ) where
  unfoldable pub send_step : SendEvent → SendCtx → World D → Run SendCtx D
  send_step work_runs c w = send_state_machine can config fuel c w
  send_step (flow_control frame) c w = send_can_rx can config frame c w
  send_step (frame_completes error) c w = send_can_tx_callback error c w
  send_step timer_expires c w = send_timeout_handler can config (record c { timer = none }) w

  -- The events behind the one that frees the context are left out; what they lead to is in
  -- Isotp/Bound/Outstanding.antt.
  unfoldable pub unless_freed : (SendCtx → World D → Run SendCtx D) → Run SendCtx D → Run SendCtx D
  unless_freed more (live c w) = more c w
  unless_freed more (freed w) = freed w
  unless_freed more fault = fault
  unless_freed more stuck = stuck

  unfoldable pub send_steps : List SendEvent → SendCtx → World D → Run SendCtx D
  unfolding send_step unless_freed
  send_steps [] c w = live c w
  send_steps (e ∷ es) c w = unless_freed (send_steps es) (send_step e c w)

module _ {D : Type 0} (can : Driver D) (config : Config) (documented : Documented can)
    (sends : AlwaysSends can) (a : ℕ) (message : Bytes) (long : can.max_dlen - 2 < length message)
    (short : length message ≤ 4095) (old : List CanFrame)
    (reported : List (ℕ × Option IsotpError)) where
  -- The frames so far, and what is left.
  pub record Partly (c : SendCtx) (frames : List CanFrame) : Type 0 where
    pub head : CanFrame
    pub tail : List CanFrame
    pub count : ℕ
    pub are : frames ≡ old ++ head ∷ tail
    pub from : head.id ≡ a
    pub begins : Begins can message head
    pub chain : Chain can a 1 (drop (can.max_dlen - 2) message) tail count c.source
    pub missing : c.rem_len ≡ length c.source
    pub numbered : c.sn ≡ count % 16
    pub bound : length c.source ≤ 4095

  abbrev pub ByState : TxState → SendCtx → List CanFrame → Type 0
  ByState send_ff c frames = (frames ≡ old) × (c.source ≡ message) × (c.rem_len ≡ length message)
  ByState wait_fc c frames = Partly c frames × (0 < length c.source)
  ByState send_cf c frames = Partly c frames × (0 < length c.source)
  ByState wait_st c frames = Partly c frames × (0 < length c.source)
  ByState wait_backlog c frames = Partly c frames × (c.source ≡ [])
  ByState wait_fin c frames = Partly c frames × (c.source ≡ [])
  ByState tx_err c frames = (e : IsotpError) × (c.error ≡ some e)
  ByState reset c frames = ⊥
  ByState send_sf c frames = ⊥

  abbrev pub Good : Run SendCtx D → Type 0
  Good (live c w) = (c.tx_addr ≡ a) × (w.finished ≡ reported) × ByState c.state c w.frames
  Good (freed w) =
      ((e : IsotpError) × (w.finished ≡ reported ++ (a, some e) ∷ []))
      ⊎ ((sent : List CanFrame) × (w.finished ≡ reported ++ (a, none) ∷ [])
          × (w.frames ≡ old ++ sent)
          × AreSegments can a message sent)
  Good fault = ⊥
  Good stuck = ⊥

  -- What `Partly` reads of a context.
  pub record Same (c c' : SendCtx) : Type 0 where
    pub address : c'.tx_addr ≡ c.tx_addr
    pub source : c'.source ≡ c.source
    pub rem_len : c'.rem_len ≡ c.rem_len
    pub sn : c'.sn ≡ c.sn
    pub error : c'.error ≡ c.error

  Kept-Partly :
      {c c' : SendCtx} {fs : List CanFrame}
      → c'.source ≡ c.source
      → c'.rem_len ≡ c.rem_len
      → c'.sn ≡ c.sn
      → Partly c fs
      → Partly c' fs
  Kept-Partly {c} {c'} source rem_len sn p = record {
    head = p.head;
    tail = p.tail;
    count = p.count;
    are = p.are;
    from = p.from;
    begins = p.begins;
    chain =
        subst (λ (r : Bytes). Chain can a 1 (drop (can.max_dlen - 2) message) p.tail p.count r)
          (sym source) p.chain;
    missing = rem_len ∙ p.missing ∙ ap length (sym source);
    numbered = sn ∙ p.numbered;
    bound = rw source p.bound;
  }

  pub Same-Partly : {c c' : SendCtx} {fs : List CanFrame} → Same c c' → Partly c fs → Partly c' fs
  Same-Partly s p = Kept-Partly s.source s.rem_len s.sn p

  pub Same-here :
      {c : SendCtx} {t : Option ℕ} {s : TxState} {sem pending backlog wft bs stmin : ℕ}
      → Same c (record c {
        timer = t;
        state = s;
        sem = sem;
        pending_cb = pending;
        backlog = backlog;
        wft = wft;
        bs = bs;
        stmin = stmin;
      })
  Same-here = record { address = refl; source = refl; rem_len = refl; sn = refl; error = refl }

  -- Another state or timer changes nothing of this.
  pub moved :
      {c : SendCtx} {fs : List CanFrame} {t : Option ℕ} {s : TxState}
      → Partly c fs
      → Partly (record c { timer = t; state = s }) fs
  moved p =
      Same-Partly
        (record { address = refl; source = refl; rem_len = refl; sn = refl; error = refl }) p

  -- What waits for the driver keeps this too.
  pub Waited-Partly :
      {c c' : SendCtx} {fs : List CanFrame} → Waited c c' → Partly c fs → Partly c' fs
  Waited-Partly {c} {c'} s p = Kept-Partly s.source s.rem_len s.sn p
