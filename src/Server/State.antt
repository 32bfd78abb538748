-- ===== src/Server/State.antt =====
-- What a request handler of src/ThingSetServer.cpp reads and changes.
use thingsetplusplus.Prelude.{ℕ, Bool, false, Option, some, ◌==◌}
use thingsetplusplus.Bytes.{Bytes}
use thingsetplusplus.Command.{Cmd, modify}
use thingsetplusplus.LinkedList.{Ptr}
use thingsetplusplus.RequestContext.{Status, Request}

-- The coders of the request context, the state of the application's objects, and the status in the
-- response.
pub record World (E D S : Type 0) : Type 0 where
  pub encoder : E
  pub decoder : D
  pub app : S
  pub status : Option Status

pub data CallbackReason : Type 0 where
  will_read did_read will_write did_write : CallbackReason

-- A C++ `int`: `negsuc n` is -1 - n.
pub data ℤ : Type 0 where
  pos negsuc : ℕ → ℤ

-- `result == 0`
abbrev pub is_zero : ℤ → Bool
is_zero (pos n) = n == 0
is_zero (negsuc n) = false

-- The virtual functions of the nodes: of ThingSetEncodable, ThingSetDecodable, ThingSetParentNode,
-- ThingSetInvocable and ThingSetCustomRequestHandler, and `getType`.
pub record App (E D S : Type 0) : Type 0 where
  pub encode : Ptr → E → S → Bool × E × S
  pub decode : Ptr → D → S → Bool × D × S
  pub invoke_callback : (parent child : Ptr) → CallbackReason → S → Bool × S
  pub invoke : Ptr → D → E → S → Bool × D × E × S
  pub handle_request : Ptr → Request → World E D S → ℤ × World E D S
  pub get_type : Ptr → Bytes

unfoldable pub set_status : {E D S : Type 0} → Status → Cmd (World E D S) (Unit {0})
set_status status w = modify (λ w. record w { status = some status }) w
