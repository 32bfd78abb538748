-- ===== src/Can/Id/Layout/Getters.antt =====
-- The getters of src/can/CanID.cpp read the fields.
use thingsetplusplus.Prelude.{◌+◌, ◌*◌, ◌^◌, ◌≡◌, arith}
use thingsetplusplus.Prelude.Bits.{get_field}
use thingsetplusplus.Can.Id.{
  CanId, get_source, get_target, get_data_id, get_sequence_number, get_message_number, get_bridge,
  get_random_element, get_message_type, get_multi_frame_message_type, get_message_priority,
}
use thingsetplusplus.Can.Id.Layout.Arithmetic.{layout}

pub get_source_lem : (c : CanId) → get_source c ≡ (layout c.id).source
unfolding get_source layout
get_source_lem c = omega (arith, get_field 0 8 c.id)

pub get_target_lem :
    (c : CanId)
    → get_target c
      ≡ (layout c.id).message_number * 64
        + (layout c.id).multi_frame_type * 16
        + (layout c.id).sequence_number
unfolding get_target layout
get_target_lem c = omega (arith, get_field 8 8 c.id)

pub get_data_id_lem :
    (c : CanId)
    → get_data_id c
      ≡ (layout c.id).bridge * 256
        + (layout c.id).message_number * 64
        + (layout c.id).multi_frame_type * 16
        + (layout c.id).sequence_number
unfolding get_data_id layout
get_data_id_lem c = omega (arith, get_field 8 16 c.id)

pub get_sequence_number_lem : (c : CanId) → get_sequence_number c ≡ (layout c.id).sequence_number
unfolding get_sequence_number layout
get_sequence_number_lem c = omega (arith, get_field 8 4 c.id)

pub get_message_number_lem : (c : CanId) → get_message_number c ≡ (layout c.id).message_number
unfolding get_message_number layout
get_message_number_lem c = omega (arith, get_field 14 2 c.id)

pub get_bridge_lem : (c : CanId) → get_bridge c ≡ (layout c.id).bridge
unfolding get_bridge layout
get_bridge_lem c = omega (arith, get_field 16 8 c.id)

pub get_random_element_lem : (c : CanId) → get_random_element c ≡ (layout c.id).bridge
unfolding get_random_element layout
get_random_element_lem c = omega (arith, get_field 16 8 c.id)

pub get_message_type_lem : (c : CanId) → get_message_type c ≡ (layout c.id).type * 2 ^ 24
unfolding get_message_type layout
get_message_type_lem c = omega (arith, get_field 24 2 c.id)

pub get_multi_frame_message_type_lem :
    (c : CanId) → get_multi_frame_message_type c ≡ (layout c.id).multi_frame_type * 2 ^ 12
unfolding get_multi_frame_message_type layout
get_multi_frame_message_type_lem c = omega (arith, get_field 12 2 c.id)

pub get_message_priority_lem :
    (c : CanId) → get_message_priority c ≡ (layout c.id).priority * 2 ^ 26
unfolding get_message_priority layout
get_message_priority_lem c = omega (arith, get_field 26 3 c.id)
