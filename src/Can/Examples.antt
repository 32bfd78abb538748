-- ===== src/Can/Examples.antt =====
-- The theorems on src/can/CanID.cpp at one identifier.
use thingsetplusplus.Prelude.{◌+◌, ◌^◌, ◌*◌, ◌/◌, ◌%◌, ◌≡◌, arith}
use thingsetplusplus.Can.Id.{
  CanId, get_source, get_target, get_data_id, get_sequence_number, get_message_number, get_bridge,
  get_random_element, get_message_type, get_multi_frame_message_type, get_message_priority,
  set_source, set_target, set_data_id, set_sequence_number, set_message_number, set_bridge,
  set_random_element, set_message_type, set_multi_frame_message_type, set_message_priority,
  message_type, multi_frame_message_type, message_priority, MessageType, MultiFrameMessageType,
  MessagePriority, get_reply_id,
}
use thingsetplusplus.Can.Id.Layout.{layout}
use thingsetplusplus.Can.Id.Layout.Setters.{Holds}
use thingsetplusplus.Can.Id.Wire.{
  getters_lem, number_setters-Holds, report_setters-Holds, get_reply_id_lem,
}

-- Priority 6, a request on bridge 0x12 from 0x21 to 0xb4.
abbrev request : CanId
request = record { id = 0x1812b421; mask = 0x1fffffff }

getters_lem_example :
    (get_source request ≡ (layout request.id).source)
    × (get_target request
        ≡ (layout request.id).message_number * 64
          + (layout request.id).multi_frame_type * 16
          + (layout request.id).sequence_number)
    × (get_data_id request ≡ (layout request.id).bridge * 256 + get_target request)
    × (get_sequence_number request ≡ (layout request.id).sequence_number)
    × (get_message_number request ≡ (layout request.id).message_number)
    × (get_bridge request ≡ (layout request.id).bridge)
    × (get_random_element request ≡ (layout request.id).bridge)
    × (get_message_type request ≡ (layout request.id).type * 2 ^ 24)
    × (get_multi_frame_message_type request ≡ (layout request.id).multi_frame_type * 2 ^ 12)
    × (get_message_priority request ≡ (layout request.id).priority * 2 ^ 26)
getters_lem_example = getters_lem request

number_setters-Holds_example :
    Holds (set_source 0x35 request) (record (layout request.id) { source = 0x35 })
    × Holds (set_target 0x35 request) (record (layout request.id) {
      message_number = 0x35 / 64;
      multi_frame_type = 0x35 / 16 % 4;
      sequence_number = 0x35 % 16;
    })
    × Holds
        (set_sequence_number 0x35 request)
        (record (layout request.id) { sequence_number = 0x35 % 16 })
    × Holds
        (set_message_number 0x35 request)
        (record (layout request.id) { message_number = 0x35 % 4 })
    × Holds (set_bridge 0x35 request) (record (layout request.id) { bridge = 0x35 })
    × Holds (set_random_element 0x35 request) (record (layout request.id) { bridge = 0x35 })
number_setters-Holds_example = number_setters-Holds 0x35 request (omega arith) (omega arith)

report_setters-Holds_example :
    Holds (set_data_id 0x1234 request) (record (layout request.id) {
      bridge = 0x1234 / 256;
      message_number = 0x1234 / 64 % 4;
      multi_frame_type = 0x1234 / 16 % 4;
      sequence_number = 0x1234 % 16;
    })
    × Holds
        (set_message_type MessageType.network request)
        (record (layout request.id) { type = message_type MessageType.network / 2 ^ 24 })
    × Holds
        (set_multi_frame_message_type MultiFrameMessageType.last request)
        (record (layout request.id) {
          multi_frame_type = multi_frame_message_type MultiFrameMessageType.last / 2 ^ 12;
        })
    × Holds (set_message_priority MessagePriority.channel request) (record (layout request.id) {
      priority = message_priority MessagePriority.channel / 2 ^ 26;
    })
report_setters-Holds_example =
    report_setters-Holds 0x1234 MessageType.network MultiFrameMessageType.last
      MessagePriority.channel request (omega arith) (omega arith)

get_reply_id_lem_example :
    (get_source (get_reply_id request) ≡ get_target request)
    × (get_target (get_reply_id request) ≡ get_source request)
    × (get_bridge (get_reply_id request) ≡ get_bridge request)
    × (get_message_type (get_reply_id request) ≡ get_message_type request)
    × (get_message_priority (get_reply_id request) ≡ get_message_priority request)
    × ((get_reply_id (get_reply_id request)).id ≡ request.id)
get_reply_id_lem_example = get_reply_id_lem request (omega arith)
