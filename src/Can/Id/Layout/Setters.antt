-- ===== src/Can/Id/Layout/Setters.antt =====
-- The setters of src/can/CanID.cpp change the fields that they name, and no other.
use thingsetplusplus.Prelude.{ℕ, ◌/◌, ◌%◌, ◌^◌, ◌<◌, ◌≡◌, arith}
use thingsetplusplus.Prelude.Bits.{set_field}
use thingsetplusplus.Can.Id.{
  CanId, set_source, set_target, set_data_id, set_sequence_number, set_message_number, set_bridge,
  set_random_element, set_message_type, set_multi_frame_message_type, set_message_priority,
  message_type, multi_frame_message_type, message_priority, MessageType, request_response,
  multi_frame_report, single_frame_report, network, MultiFrameMessageType, first, consecutive, last,
  single, MessagePriority, control_emergency, control_high, control_low, network_management,
  report_high, channel, report_low,
}
use thingsetplusplus.Can.Id.Layout.Arithmetic.{Layout, layout}

-- The object is a 32-bit word, and its fields are as given.
pub record Holds (c : CanId) (l : Layout) : Type 0 where
  pub word : c.id < 2 ^ 32
  pub fields : layout c.id ≡ l

pub set_source-Holds :
    (v : ℕ) (c : CanId)
    → v < 256
    → c.id < 2 ^ 32
    → Holds (set_source v c) (record (layout c.id) { source = v })
unfolding set_source layout
set_source-Holds v c v_fits word = ground (arith, set_field 24 0 8 c.id v (omega arith))

pub set_target-Holds :
    (v : ℕ) (c : CanId)
    → v < 256
    → c.id < 2 ^ 32
    → Holds (set_target v c) (record (layout c.id) {
      message_number = v / 64;
      multi_frame_type = v / 16 % 4;
      sequence_number = v % 16;
    })
unfolding set_target layout
set_target-Holds v c v_fits word = ground (arith, set_field 16 8 8 c.id v (omega arith))

pub set_data_id-Holds :
    (v : ℕ) (c : CanId)
    → v < 2 ^ 16
    → c.id < 2 ^ 32
    → Holds (set_data_id v c) (record (layout c.id) {
      bridge = v / 256;
      message_number = v / 64 % 4;
      multi_frame_type = v / 16 % 4;
      sequence_number = v % 16;
    })
unfolding set_data_id layout
set_data_id-Holds v c v_fits word = ground (arith, set_field 8 8 16 c.id v (omega arith))

pub set_sequence_number-Holds :
    (v : ℕ) (c : CanId)
    → v < 256
    → c.id < 2 ^ 32
    → Holds (set_sequence_number v c) (record (layout c.id) { sequence_number = v % 16 })
unfolding set_sequence_number layout
set_sequence_number-Holds v c v_fits word = ground (arith, set_field 20 8 4 c.id v (omega arith))

pub set_message_number-Holds :
    (v : ℕ) (c : CanId)
    → v < 256
    → c.id < 2 ^ 32
    → Holds (set_message_number v c) (record (layout c.id) { message_number = v % 4 })
unfolding set_message_number layout
set_message_number-Holds v c v_fits word = ground (arith, set_field 16 14 2 c.id v (omega arith))

pub set_bridge-Holds :
    (v : ℕ) (c : CanId)
    → v < 256
    → c.id < 2 ^ 32
    → Holds (set_bridge v c) (record (layout c.id) { bridge = v })
unfolding set_bridge layout
set_bridge-Holds v c v_fits word = ground (arith, set_field 8 16 8 c.id v (omega arith))

pub set_random_element-Holds :
    (v : ℕ) (c : CanId)
    → v < 256
    → c.id < 2 ^ 32
    → Holds (set_random_element v c) (record (layout c.id) { bridge = v })
unfolding set_random_element layout
set_random_element-Holds v c v_fits word = ground (arith, set_field 8 16 8 c.id v (omega arith))

pub set_message_type-Holds :
    (value : MessageType) (c : CanId)
    → c.id < 2 ^ 32
    → Holds (set_message_type value c) (record (layout c.id) { type = message_type value / 2 ^ 24 })
unfolding set_message_type message_type layout
set_message_type-Holds request_response c word =
    ground (arith, set_field 6 24 2 c.id 0 (omega arith))
set_message_type-Holds multi_frame_report c word =
    ground (arith, set_field 6 24 2 c.id 1 (omega arith))
set_message_type-Holds single_frame_report c word =
    ground (arith, set_field 6 24 2 c.id 2 (omega arith))
set_message_type-Holds network c word = ground (arith, set_field 6 24 2 c.id 3 (omega arith))

pub set_multi_frame_message_type-Holds :
    (value : MultiFrameMessageType) (c : CanId)
    → c.id < 2 ^ 32
    → Holds
        (set_multi_frame_message_type value c)
        (record (layout c.id) { multi_frame_type = multi_frame_message_type value / 2 ^ 12 })
unfolding set_multi_frame_message_type multi_frame_message_type layout
set_multi_frame_message_type-Holds first c word =
    ground (arith, set_field 18 12 2 c.id 0 (omega arith))
set_multi_frame_message_type-Holds consecutive c word =
    ground (arith, set_field 18 12 2 c.id 1 (omega arith))
set_multi_frame_message_type-Holds last c word =
    ground (arith, set_field 18 12 2 c.id 2 (omega arith))
set_multi_frame_message_type-Holds single c word =
    ground (arith, set_field 18 12 2 c.id 3 (omega arith))

pub set_message_priority-Holds :
    (value : MessagePriority) (c : CanId)
    → c.id < 2 ^ 32
    → Holds
        (set_message_priority value c)
        (record (layout c.id) { priority = message_priority value / 2 ^ 26 })
unfolding set_message_priority message_priority layout
set_message_priority-Holds control_emergency c word =
    ground (arith, set_field 3 26 3 c.id 0 (omega arith))
set_message_priority-Holds control_high c word =
    ground (arith, set_field 3 26 3 c.id 2 (omega arith))
set_message_priority-Holds control_low c word =
    ground (arith, set_field 3 26 3 c.id 3 (omega arith))
set_message_priority-Holds network_management c word =
    ground (arith, set_field 3 26 3 c.id 4 (omega arith))
set_message_priority-Holds report_high c word =
    ground (arith, set_field 3 26 3 c.id 5 (omega arith))
set_message_priority-Holds channel c word = ground (arith, set_field 3 26 3 c.id 6 (omega arith))
set_message_priority-Holds report_low c word = ground (arith, set_field 3 26 3 c.id 7 (omega arith))
