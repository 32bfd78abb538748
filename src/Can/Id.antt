-- ===== src/Can/Id.antt =====
-- CAN identifiers: src/can/CanID.cpp and include/thingset++/can/CanID.hpp. A `uint32_t` is a number
-- below 2 ^ 32, `<<` and `>>` are multiplication and division by a power of two, and a setter
-- returns the new object in place of `*this`.
pub mod Layout
pub mod Wire
use thingsetplusplus.Prelude.{
  ℕ, ◌+◌, ◌-◌, ◌*◌, ◌/◌, ◌%◌, ◌^◌, bit_and, bit_or, ltb, leb, if◌then◌else◌,
}

-- The low bit of each component: THINGSET_PLUS_PLUS_CAN_ID_POSITION_*.
abbrev pub position_source : ℕ
position_source = 0

abbrev pub position_target : ℕ
position_target = 8

abbrev pub position_data_id : ℕ
position_data_id = 8

abbrev pub position_seq_no : ℕ
position_seq_no = 8

abbrev pub position_mf_type : ℕ
position_mf_type = 12

abbrev pub position_msg_no : ℕ
position_msg_no = 14

abbrev pub position_bridge : ℕ
position_bridge = 16

abbrev pub position_type : ℕ
position_type = 24

abbrev pub position_priority : ℕ
position_priority = 26

pub data MessageType : Type 0 where
  request_response multi_frame_report single_frame_report network : MessageType

pub data MultiFrameMessageType : Type 0 where
  first consecutive last single : MultiFrameMessageType

pub data MessagePriority : Type 0 where
  control_emergency control_high control_low network_management : MessagePriority
  report_high channel report_low : MessagePriority

-- The number behind each enumerator.
unfoldable pub message_type : MessageType → ℕ
message_type request_response = 0x0 * 2 ^ position_type
message_type multi_frame_report = 0x1 * 2 ^ position_type
message_type single_frame_report = 0x2 * 2 ^ position_type
message_type network = 0x3 * 2 ^ position_type

unfoldable pub multi_frame_message_type : MultiFrameMessageType → ℕ
multi_frame_message_type first = 0x0 * 2 ^ position_mf_type
multi_frame_message_type consecutive = 0x1 * 2 ^ position_mf_type
multi_frame_message_type last = 0x2 * 2 ^ position_mf_type
multi_frame_message_type single = 0x3 * 2 ^ position_mf_type

unfoldable pub message_priority : MessagePriority → ℕ
message_priority control_emergency = 0x0 * 2 ^ position_priority
message_priority control_high = 0x2 * 2 ^ position_priority
message_priority control_low = 0x3 * 2 ^ position_priority
message_priority network_management = 0x4 * 2 ^ position_priority
message_priority report_high = 0x5 * 2 ^ position_priority
message_priority channel = 0x6 * 2 ^ position_priority
message_priority report_low = 0x7 * 2 ^ position_priority

pub record CanId : Type 0 where
  pub id : ℕ
  pub mask : ℕ

abbrev pub sff_mask : ℕ
sff_mask = 0x7FF

abbrev pub eff_mask : ℕ
eff_mask = 0x1FFF_FFFF

abbrev pub eff_flag : ℕ
eff_flag = 0x8000_0000

abbrev pub source_mask : ℕ
source_mask = 0xff * 2 ^ position_source

abbrev pub target_mask : ℕ
target_mask = 0xff * 2 ^ position_target

abbrev pub data_id_mask : ℕ
data_id_mask = 0xffff * 2 ^ position_data_id

abbrev pub sequence_number_mask : ℕ
sequence_number_mask = 0xf * 2 ^ position_seq_no

abbrev pub multi_frame_type_mask : ℕ
multi_frame_type_mask = 0x3 * 2 ^ position_mf_type

abbrev pub message_number_mask : ℕ
message_number_mask = 0x3 * 2 ^ position_msg_no

abbrev pub bridge_mask : ℕ
bridge_mask = 0xff * 2 ^ position_bridge

abbrev pub message_type_mask : ℕ
message_type_mask = 0x3 * 2 ^ position_type

abbrev pub message_priority_mask : ℕ
message_priority_mask = 0x7 * 2 ^ position_priority

-- `~` on a `uint32_t`.
abbrev pub complement : ℕ → ℕ
complement m = 2 ^ 32 - 1 - m

-- The default constructor.
unfoldable pub empty : CanId
empty = record { id = 0; mask = 0 }

unfoldable pub get_id_with_flags : CanId → ℕ
get_id_with_flags c = if ltb sff_mask c.id then bit_or c.id eff_flag else c.id

unfoldable pub set_mask : ℕ → CanId → CanId
set_mask value c = record c { mask = value }

unfoldable pub get_source : CanId → ℕ
get_source c = bit_and c.id source_mask / 2 ^ position_source % 2 ^ 8

unfoldable pub set_source : ℕ → CanId → CanId
set_source value c = record {
  id =
      bit_or (bit_and c.id (complement source_mask))
        (bit_and (value * 2 ^ position_source) source_mask);
  mask = bit_or c.mask source_mask;
}

unfoldable pub get_target : CanId → ℕ
get_target c = bit_and c.id target_mask / 2 ^ position_target % 2 ^ 8

unfoldable pub set_target : ℕ → CanId → CanId
set_target value c = record {
  id =
      bit_or (bit_and c.id (complement target_mask))
        (bit_and (value * 2 ^ position_target) target_mask);
  mask = bit_or c.mask target_mask;
}

unfoldable pub get_data_id : CanId → ℕ
get_data_id c = bit_and c.id data_id_mask / 2 ^ position_data_id % 2 ^ 16

unfoldable pub set_data_id : ℕ → CanId → CanId
set_data_id value c = record {
  id =
      bit_or (bit_and c.id (complement data_id_mask))
        (bit_and (value * 2 ^ position_data_id) data_id_mask);
  mask = bit_or c.mask data_id_mask;
}

unfoldable pub get_sequence_number : CanId → ℕ
get_sequence_number c = bit_and c.id sequence_number_mask / 2 ^ position_seq_no % 2 ^ 8

unfoldable pub set_sequence_number : ℕ → CanId → CanId
set_sequence_number value c = record {
  id =
      bit_or (bit_and c.id (complement sequence_number_mask))
        (bit_and (value * 2 ^ position_seq_no) sequence_number_mask);
  mask = bit_or c.mask sequence_number_mask;
}

unfoldable pub get_message_number : CanId → ℕ
get_message_number c = bit_and c.id message_number_mask / 2 ^ position_msg_no % 2 ^ 8

unfoldable pub set_message_number : ℕ → CanId → CanId
set_message_number value c = record {
  id =
      bit_or (bit_and c.id (complement message_number_mask))
        (bit_and (value * 2 ^ position_msg_no) message_number_mask);
  mask = bit_or c.mask message_number_mask;
}

unfoldable pub get_bridge : CanId → ℕ
get_bridge c = bit_and c.id bridge_mask / 2 ^ position_bridge % 2 ^ 8

unfoldable pub set_bridge : ℕ → CanId → CanId
set_bridge value c = record {
  id =
      bit_or (bit_and c.id (complement bridge_mask))
        (bit_and (value * 2 ^ position_bridge) bridge_mask);
  mask = bit_or c.mask bridge_mask;
}

unfoldable pub get_random_element : CanId → ℕ
unfolding get_bridge
get_random_element c = get_bridge c

unfoldable pub set_random_element : ℕ → CanId → CanId
unfolding set_bridge
set_random_element value c = set_bridge value c

unfoldable pub get_message_type : CanId → ℕ
get_message_type c = bit_and c.id message_type_mask

unfoldable pub set_message_type : MessageType → CanId → CanId
unfolding message_type
set_message_type value c = record {
  id = bit_or (bit_and c.id (complement message_type_mask)) (message_type value);
  mask = bit_or c.mask message_type_mask;
}

unfoldable pub get_multi_frame_message_type : CanId → ℕ
get_multi_frame_message_type c = bit_and c.id multi_frame_type_mask

unfoldable pub set_multi_frame_message_type : MultiFrameMessageType → CanId → CanId
unfolding multi_frame_message_type
set_multi_frame_message_type value c = record {
  id = bit_or (bit_and c.id (complement multi_frame_type_mask)) (multi_frame_message_type value);
  mask = bit_or c.mask multi_frame_type_mask;
}

unfoldable pub get_message_priority : CanId → ℕ
get_message_priority c = bit_and c.id message_priority_mask

unfoldable pub set_message_priority : MessagePriority → CanId → CanId
unfolding message_priority
set_message_priority value c = record {
  id = bit_or (bit_and c.id (complement message_priority_mask)) (message_priority value);
  mask = bit_or c.mask message_priority_mask;
}

unfoldable pub get_reply_id : CanId → CanId
get_reply_id c = set_source (get_target c) (set_target (get_source c) c)

unfoldable pub create : ℕ → CanId
create id =
    let mask : ℕ = if leb id sff_mask then sff_mask else eff_mask in
    record { id = bit_and id mask; mask = mask }
