-- ===== src/Server/Preserve.antt =====
-- Commands that keep a property of the application's state (the nodes' values, say), whatever they do to
-- the coders and the status. The rules follow the commands of Command.antt.
use thingsetplusplus.Prelude.{Bool, true, false, if◌then◌else◌}
use thingsetplusplus.Command.{Cmd, pure, and_then, ◌>>=◌, also, lift, read}
use thingsetplusplus.Outcome.{Outcome, done, aborted, out_of_fuel}
use thingsetplusplus.RequestContext.{Status, Request}
use thingsetplusplus.LinkedList.{Ptr}
use thingsetplusplus.Server.State.{World, CallbackReason, set_status}
use thingsetplusplus.Server.Calls.{
  Server, W, on_encoder, on_decoder, encode, invoke_callback, fail, reply,
}

module _ {E D S : Type 0} (P : S → Type 0) where
  -- The property holds of the state that a run ends in, if it ends.
  abbrev pub After : {A : Type 0} → Outcome (A × World E D S) → Type 0
  After (done (a, w)) = P w.app
  After aborted = Unit
  After out_of_fuel = Unit

  pub record Preserves {A : Type 0} (m : Cmd (World E D S) A) : Type 0 where
    pub keeps : (w : World E D S) → P w.app → After (m w)

  pub After-and_then :
      {A B : Type 0} (o : Outcome (A × World E D S)) (k : A → Cmd (World E D S) B)
      → After o
      → ((a : A) → Preserves (k a))
      → After (and_then o k)
  After-and_then (done (a, w)) k p next = (next a).keeps w p
  After-and_then aborted k p next = tt
  After-and_then out_of_fuel k p next = tt

  pub bind :
      {A B : Type 0} {m : Cmd (World E D S) A} {k : A → Cmd (World E D S) B}
      → Preserves m
      → ((a : A) → Preserves (k a))
      → Preserves (m >>= k)
  bind {m} {k} first next = record { keeps = λ w p. After-and_then (m w) k (first.keeps w p) next }

  pub returns : {A : Type 0} (a : A) → Preserves (pure a)
  returns a = record { keeps = λ w p. p }

  pub choose :
      {A : Type 0} (b : Bool) {m n : Cmd (World E D S) A}
      → Preserves m
      → Preserves n
      → Preserves (elim b [ true ↦ m | false ↦ n ])
  choose true pm pn = pm
  choose false pm pn = pn

  pub branch :
      {A : Type 0} (b : Bool) {m n : Cmd (World E D S) A}
      → Preserves m
      → Preserves n
      → Preserves (if b then m else n)
  branch true pm pn = pm
  branch false pm pn = pn

  pub both : {m n : Cmd (World E D S) Bool} → Preserves m → Preserves n → Preserves (also m n)
  both pm pn = bind pm (λ b. choose b pn (returns false))

  pub lifted : {A : Type 0} (o : Outcome A) → Preserves (lift o)
  lifted (done a) = record { keeps = λ w p. p }
  lifted aborted = record { keeps = λ w p. tt }
  lifted out_of_fuel = record { keeps = λ w p. tt }

  pub set_status-Preserves : (status : Status) → Preserves (set_status status)
  unfolding set_status
  set_status-Preserves status = record { keeps = λ w p. p }

module _ {E D S : Type 0} (s : Server E D S) (P : S → Type 0) where
  pub fail-Preserves : (q : Request) (status : Status) → Preserves P (fail s q status)
  unfolding fail
  fail-Preserves q status = record { keeps = λ w p. p }

  pub reply-Preserves : (q : Request) → Preserves P (reply s q)
  unfolding reply
  reply-Preserves q = record { keeps = λ w p. p }

  pub on_encoder-Preserves : {A : Type 0} (f : E → A × E) → Preserves P (on_encoder s f)
  on_encoder-Preserves f = record { keeps = λ w p. p }

  pub on_decoder-Preserves : {A : Type 0} (f : D → A × D) → Preserves P (on_decoder s f)
  on_decoder-Preserves f = record { keeps = λ w p. p }

  pub reads : {A : Type 0} (f : W s → A) → Preserves P (read f)
  reads f = record { keeps = λ w p. p }

  -- The calls on the application's objects, where the object keeps the property.
  pub encode-Preserves :
      ((n : Ptr) (e : E) (a : S) → P a → P (s.app.encode n e a).2)
      → (n : Ptr) → Preserves P (encode s n)
  encode-Preserves keep n = record { keeps = λ w p. keep n w.encoder w.app p }

  pub invoke_callback-Preserves :
      ((p n : Ptr) (why : CallbackReason) (a : S) → P a → P (s.app.invoke_callback p n why a).1)
      → (p n : Ptr) (why : CallbackReason) → Preserves P (invoke_callback s p n why)
  invoke_callback-Preserves keep p n why = record { keeps = λ w h. keep p n why w.app h }
