-- ===== src/RequestContext.antt =====
-- include/thingset++/ThingSetRequestContext.hpp, the queries of src/ThingSetRequestContext.cpp and the
-- request codes of include/thingset++/ThingSetStatus.hpp.
pub mod Rewrite
mod Examples
use thingsetplusplus.Prelude.{
  ℕ, Bool, true, false, ◌&&◌, ◌||◌, [], ◌∷◌, Option, none, some, ◌==◌, ltb, length,
}
use thingsetplusplus.Bytes.{Bytes, split_at}

-- The two subclasses: ThingSetBinaryRequestContext and ThingSetTextRequestContext.
pub data Format : Type 0 where
  binary text : Format

-- The enumerators that a context is asked about, with their values in the two enums of request types.
pub data RequestType : Type 0 where
  get exec remove fetch update forward : RequestType

unfoldable pub code : Format → RequestType → ℕ
code binary get = 0x01
code binary exec = 0x02
code binary remove = 0x04
code binary fetch = 0x05
code binary update = 0x07
code binary forward = 0x1c
code text get = b'?'
code text exec = b'!'
code text remove = b'-'
code text fetch = b'?'
code text update = b'='
code text forward = b'>'

-- enum ThingSetStatusCode
pub data Status : Type 0 where
  created deleted changed content : Status
  bad_request unauthorised forbidden not_found method_not_allowed request_incomplete : Status
  conflict request_too_large unsupported_format : Status
  internal_server_error not_implemented gateway_timeout not_a_gateway : Status

unfoldable pub status_code : Status → ℕ
status_code created = 0x81
status_code deleted = 0x82
status_code changed = 0x84
status_code content = 0x85
status_code bad_request = 0xa0
status_code unauthorised = 0xa1
status_code forbidden = 0xa3
status_code not_found = 0xa4
status_code method_not_allowed = 0xa5
status_code request_incomplete = 0xa8
status_code conflict = 0xa9
status_code request_too_large = 0xad
status_code unsupported_format = 0xaf
status_code internal_server_error = 0xc0
status_code not_implemented = 0xc1
status_code gateway_timeout = 0xc4
status_code not_a_gateway = 0xc5

-- ThingSetResult::success (src/ThingSetResult.cpp)
unfoldable pub success : Status → Bool
success content = true
success changed = true
success created = true
success deleted = true
success _ = false

-- What a context has read of a request: `request_type` is its first byte.
pub record Request : Type 0 where
  pub format : Format
  pub request_type : ℕ
  pub id : Option ℕ
  pub path : Option Bytes

abbrev pub has_value {ℓ} : {A : Type ℓ} → Option A → Bool
has_value none = false
has_value (some a) = true

unfoldable pub is_type : RequestType → Request → Bool
unfolding code
is_type t q = q.request_type == code q.format t

unfoldable pub has_valid_endpoint : Request → Bool
has_valid_endpoint q = has_value q.id || has_value q.path

abbrev pub starts_with_slash : Bytes → Bool
starts_with_slash [] = false
starts_with_slash (c ∷ cs) = c == b'/'

abbrev pub is_remote : Option Bytes → Bool
is_remote none = false
is_remote (some path) = ltb 1 (length path) && starts_with_slash path

unfoldable pub is_to_be_forwarded : Request → Bool
unfolding is_type
is_to_be_forwarded q = is_type forward q || is_remote q.path

unfoldable pub use_ids : Request → Bool
use_ids q = has_value q.id

unfoldable pub get_header_length : Format → ℕ
get_header_length binary = 1
get_header_length text = 4

-- `path().find('/', 1)`, and the text between the first byte and that slash.
unfoldable pub first_component : Bytes × Option Bytes → Option Bytes
first_component (token, none) = none
first_component (token, some rest) = some token

unfoldable pub try_get_node_id : Bytes → Option Bytes
unfolding first_component
try_get_node_id [] = none
try_get_node_id (c ∷ cs) = first_component (split_at b'/' cs)
