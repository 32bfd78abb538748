-- ===== src/Node.antt =====
-- include/thingset++/ThingSetNode.hpp and include/thingset++/ThingSetAccess.hpp. A node is an address;
-- what its virtual functions return is a record of data, and `tryCastTo` a test for each type.
use thingsetplusplus.Prelude.{ℕ, ◌*◌, ◌^◌, bit_or, Bool, List}

-- enum ThingSetNodeType; `a_record` is its `record`.
pub data NodeType : Type 0 where
  has_children encodable decodable request_handler value parameter : NodeType
  function group a_record record_member : NodeType

-- enum struct ThingSetAccess, a set of bits.
abbrev pub Access : Type 0
Access = ℕ

abbrev pub no_access : Access
no_access = 0

abbrev pub user_read : Access
user_read = 1 * 2 ^ 0

abbrev pub expert_read : Access
expert_read = 1 * 2 ^ 1

abbrev pub manufacturer_read : Access
manufacturer_read = 1 * 2 ^ 2

abbrev pub any_read : Access
any_read = bit_or (bit_or user_read expert_read) manufacturer_read

abbrev pub user_write : Access
user_write = user_read * 2 ^ 4

abbrev pub expert_write : Access
expert_write = expert_read * 2 ^ 4

abbrev pub manufacturer_write : Access
manufacturer_write = manufacturer_read * 2 ^ 4

abbrev pub any_write : Access
any_write = bit_or (bit_or user_write expert_write) manufacturer_write

abbrev pub any_read_write : Access
any_read_write = bit_or any_read any_write

-- A name is its bytes.
abbrev pub Name : Type 0
Name = List ℕ

pub record Node : Type 0 where
  pub name : Name
  pub id : ℕ
  pub parent_id : ℕ
  pub access : Access
  pub subsets : ℕ
  -- Whether `tryCastTo` succeeds.
  pub casts : NodeType → Bool
