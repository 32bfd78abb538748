-- ===== src/Coding.antt =====
-- The interfaces ThingSetEncoder and ThingSetDecoder (include/thingset++/ThingSetEncoder.hpp and
-- include/thingset++/ThingSetDecoder.hpp): what a request handler calls. A call returns its result and
-- the coder's new state; a value that could not be decoded is `none`.
use thingsetplusplus.Prelude.{ℕ, Bool, Option}
use thingsetplusplus.Bytes.{Bytes}

-- enum struct ThingSetEncodedNodeType
pub data EncodedNodeType : Type 0 where
  unknown primitive string list map : EncodedNodeType

pub record Encoder (E : Type 0) : Type 0 where
  pub encoded_length : E → ℕ
  pub encode_preamble : E → Bool × E
  pub encode_list_start : ℕ → E → Bool × E
  pub encode_list_end : ℕ → E → Bool × E
  pub encode_map_start : ℕ → E → Bool × E
  pub encode_map_end : ℕ → E → Bool × E
  pub encode_list_separator : E → Bool × E
  pub encode_key_value_pair_separator : E → Bool × E
  pub encode_number : ℕ → E → Bool × E
  pub encode_string : Bytes → E → Bool × E
  -- The overloads without a count, for lists and maps of unknown length.
  pub encode_open_list_start : E → Bool × E
  pub encode_open_list_end : E → Bool × E
  pub encode_open_map_start : E → Bool × E
  pub encode_open_map_end : E → Bool × E

pub record Decoder (D : Type 0) : Type 0 where
  pub decode_null : D → Bool × D
  pub decode_list_start : D → Bool × D
  pub decode_list_end : D → Bool × D
  pub decode_map_start : D → Bool × D
  pub decode_map_end : D → Bool × D
  pub is_in_list : D → Bool
  pub is_in_map : D → Bool
  pub decode_number : D → Option ℕ × D
  pub decode_string : D → Option Bytes × D
  pub peek_type : D → EncodedNodeType
  pub skip : D → Bool × D
