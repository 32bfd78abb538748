-- ===== src/Can/Id/Wire.antt =====
-- What src/can/CanID.cpp puts on the wire and reads from it: the fields of an identifier, the
-- identifier of a reply, and the split into standard and extended identifiers.
use thingsetplusplus.Prelude.{
  ℕ, ◌+◌, ◌*◌, ◌/◌, ◌%◌, ◌^◌, ◌<◌, ◌≡◌, ◌∙◌, ap, arith, leb, if◌then◌else◌,
}
use thingsetplusplus.Prelude.Bits.{get_field, bit_or_fields, bit_or-zero}
use thingsetplusplus.Can.Id.{
  CanId, get_source, get_target, get_data_id, get_sequence_number, get_message_number, get_bridge,
  get_random_element, get_message_type, get_multi_frame_message_type, get_message_priority,
  set_source, set_target, set_data_id, set_sequence_number, set_message_number, set_bridge,
  set_random_element, set_message_type, set_multi_frame_message_type, set_message_priority,
  message_type, multi_frame_message_type, message_priority, MessageType, MultiFrameMessageType,
  MessagePriority, get_reply_id, create, get_id_with_flags, sff_mask, eff_mask,
}
use thingsetplusplus.Can.Id.Layout.{Layout, layout, number, number-layout, layout-Fits}
use thingsetplusplus.Can.Id.Layout.Getters.{
  get_source_lem, get_target_lem, get_data_id_lem, get_sequence_number_lem, get_message_number_lem,
  get_bridge_lem, get_random_element_lem, get_message_type_lem, get_multi_frame_message_type_lem,
  get_message_priority_lem,
}
use thingsetplusplus.Can.Id.Layout.Setters.{
  Holds, set_source-Holds, set_target-Holds, set_data_id-Holds, set_sequence_number-Holds,
  set_message_number-Holds, set_bridge-Holds, set_random_element-Holds, set_message_type-Holds,
  set_multi_frame_message_type-Holds, set_message_priority-Holds,
}

-- Every getter reads its own bit field of the identifier, whatever the rest of the identifier holds.
pub getters_lem :
    (c : CanId)
    → (get_source c ≡ (layout c.id).source)
      × (get_target c
          ≡ (layout c.id).message_number * 64
            + (layout c.id).multi_frame_type * 16
            + (layout c.id).sequence_number)
      × (get_data_id c ≡ (layout c.id).bridge * 256 + get_target c)
      × (get_sequence_number c ≡ (layout c.id).sequence_number)
      × (get_message_number c ≡ (layout c.id).message_number)
      × (get_bridge c ≡ (layout c.id).bridge)
      × (get_random_element c ≡ (layout c.id).bridge)
      × (get_message_type c ≡ (layout c.id).type * 2 ^ 24)
      × (get_multi_frame_message_type c ≡ (layout c.id).multi_frame_type * 2 ^ 12)
      × (get_message_priority c ≡ (layout c.id).priority * 2 ^ 26)
getters_lem c = (
  get_source_lem c,
  get_target_lem c,
  omega (arith, get_data_id_lem c, get_target_lem c),
  get_sequence_number_lem c,
  get_message_number_lem c,
  get_bridge_lem c,
  get_random_element_lem c,
  get_message_type_lem c,
  get_multi_frame_message_type_lem c,
  get_message_priority_lem c,
)

-- On a 32-bit identifier every setter of an address, number or random element writes its value,
-- cut to its field, into that field, and leaves all other fields and the width of the word alone.
pub number_setters-Holds :
    (v : ℕ) (c : CanId)
    → v < 256
    → c.id < 2 ^ 32
    → Holds (set_source v c) (record (layout c.id) { source = v })
      × Holds (set_target v c) (record (layout c.id) {
        message_number = v / 64;
        multi_frame_type = v / 16 % 4;
        sequence_number = v % 16;
      })
      × Holds (set_sequence_number v c) (record (layout c.id) { sequence_number = v % 16 })
      × Holds (set_message_number v c) (record (layout c.id) { message_number = v % 4 })
      × Holds (set_bridge v c) (record (layout c.id) { bridge = v })
      × Holds (set_random_element v c) (record (layout c.id) { bridge = v })
number_setters-Holds v c h w = (
  set_source-Holds v c h w,
  set_target-Holds v c h w,
  set_sequence_number-Holds v c h w,
  set_message_number-Holds v c h w,
  set_bridge-Holds v c h w,
  set_random_element-Holds v c h w,
)

-- On a 32-bit identifier the setters of the data ID, the message type, the multi-frame type and the
-- priority write their field, and leave all other fields and the width of the word alone.
pub report_setters-Holds :
    (v : ℕ) (t : MessageType) (m : MultiFrameMessageType) (p : MessagePriority) (c : CanId)
    → v < 2 ^ 16
    → c.id < 2 ^ 32
    → Holds (set_data_id v c) (record (layout c.id) {
      bridge = v / 256;
      message_number = v / 64 % 4;
      multi_frame_type = v / 16 % 4;
      sequence_number = v % 16;
    })
      × Holds (set_message_type t c) (record (layout c.id) { type = message_type t / 2 ^ 24 })
      × Holds
          (set_multi_frame_message_type m c)
          (record (layout c.id) { multi_frame_type = multi_frame_message_type m / 2 ^ 12 })
      × Holds
          (set_message_priority p c)
          (record (layout c.id) { priority = message_priority p / 2 ^ 26 })
report_setters-Holds v t m p c h w = (
  set_data_id-Holds v c h w,
  set_message_type-Holds t c w,
  set_multi_frame_message_type-Holds m c w,
  set_message_priority-Holds p c w,
)

source-lt : (c : CanId) → get_source c < 256
source-lt c = omega (arith, get_source_lem c, (layout-Fits c.id).source)

target-lt : (c : CanId) → get_target c < 256
target-lt c =
    let fits = layout-Fits c.id in
    omega
      (arith, get_target_lem c, fits.message_number, fits.multi_frame_type, fits.sequence_number)

reply-Holds :
    (c : CanId)
    → c.id < 2 ^ 32
    → Holds (get_reply_id c) (record (layout c.id) {
      message_number = get_source c / 64;
      multi_frame_type = get_source c / 16 % 4;
      sequence_number = get_source c % 16;
      source = get_target c;
    })
unfolding get_reply_id
reply-Holds c w =
    let retargeted = set_target-Holds (get_source c) c (source-lt c) w in
    let done = set_source-Holds (get_target c) _ (target-lt c) retargeted.word in
    record {
      word = done.word;
      fields =
          done.fields ∙ ap {A = Layout} (λ l. record l { source = get_target c }) retargeted.fields;
    }

-- The reply to a 32-bit identifier comes from its target and goes to its source, on the same bridge
-- and with the same type and priority; the reply to the reply is the identifier again.
pub get_reply_id_lem :
    (c : CanId)
    → c.id < 2 ^ 32
    → (get_source (get_reply_id c) ≡ get_target c)
      × (get_target (get_reply_id c) ≡ get_source c)
      × (get_bridge (get_reply_id c) ≡ get_bridge c)
      × (get_message_type (get_reply_id c) ≡ get_message_type c)
      × (get_message_priority (get_reply_id c) ≡ get_message_priority c)
      × ((get_reply_id (get_reply_id c)).id ≡ c.id)
unfolding number
get_reply_id_lem c w =
    let r = get_reply_id c in
    let there = reply-Holds c w in
    let back = reply-Holds r there.word in
    let source : get_source r ≡ get_target c = get_source_lem r ∙ ap (λ l. l.source) there.fields in
    let target : get_target r ≡ get_source c = omega (
      arith,
      get_target_lem r,
      source-lt c,
      ap (λ (l : Layout). l.message_number) there.fields,
      ap (λ (l : Layout). l.multi_frame_type) there.fields,
      ap (λ (l : Layout). l.sequence_number) there.fields,
    ) in
    (
      source,
      target,
      omega (arith, get_bridge_lem r, get_bridge_lem c, ap (λ (l : Layout). l.bridge) there.fields),
      omega (
        arith,
        get_message_type_lem r,
        get_message_type_lem c,
        ap (λ (l : Layout). l.type) there.fields,
      ),
      omega (
        arith,
        get_message_priority_lem r,
        get_message_priority_lem c,
        ap (λ (l : Layout). l.priority) there.fields,
      ),
      ground (
        arith,
        number-layout c.id,
        number-layout (get_reply_id r).id,
        there.fields,
        back.fields,
        source,
        target,
        get_source_lem c,
        get_target_lem c,
        layout-Fits c.id,
      ),
    )

-- A number below 2 ^ 29 is kept whole: a standard identifier gets the standard mask, any other the
-- extended one, and the frame's extended-identifier flag is set for exactly the latter.
pub create_lem :
    (id : ℕ)
    → id < 2 ^ 29
    → ((create id).id ≡ id)
      × ((create id).mask ≡ (if leb id 0x7ff then sff_mask else eff_mask))
      × (get_id_with_flags (create id) ≡ (if leb id 0x7ff then id else id + 2 ^ 31))
unfolding create get_id_with_flags
create_lem id h =
    ground (arith, get_field 0 11 id, get_field 0 29 id, bit_or_fields 31 0 1 id 0, bit_or-zero id)
