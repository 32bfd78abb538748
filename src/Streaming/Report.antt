-- ===== src/Streaming/Report.antt =====
-- A whole CAN report: src/can/StreamingCanThingSetBinaryEncoder.cpp from its constructor to `flush`.
use thingsetplusplus.Prelude.{
  append_assoc, append_nil, ℕ, ◌*◌, ◌-◌, ◌%◌, ◌/◌, ◌^◌, ◌<◌, ◌≡◌, refl, sym, ap, ◌∙◌, inl, inr,
  Bool, true, false, List, [], ◌∷◌, ◌++◌, if◌then◌else◌, arith, Bool-cases,
}
use thingsetplusplus.Bytes.{Bytes}
use thingsetplusplus.Can.Id.{
  CanId, MultiFrameMessageType, multi_frame_report, multi_frame_message_type, message_type,
  message_priority, report_low, set_message_priority, set_message_type,
  set_multi_frame_message_type,
}
use thingsetplusplus.Can.Id.Layout.{Layout, layout}
use thingsetplusplus.Can.Id.Layout.Setters.{
  Holds, set_message_priority-Holds, set_message_type-Holds, set_multi_frame_message_type-Holds,
  set_sequence_number-Holds,
}
use thingsetplusplus.Streaming.{Zcbor, Stream, encode, flush, Transport, frame_id, write}
use thingsetplusplus.Streaming.Frames.{sent, Full, Advances, encode-Holds, flush-Complete, Complete}
use thingsetplusplus.Streaming.Frames

-- The constructor: the first byte of the buffer is the request type, and the pointer is behind it.
unfoldable pub begin_report : {Z Item : Type 0} → Zcbor Z Item → ℕ → Bool → Stream Z Transport
begin_report zcbor size enhanced = record {
  state = zcbor.new_state 1 (size * 2 - 1) (if enhanced then 3 else 2);
  buffer = (if enhanced then 0x1e else 0x1f) ∷ [];
  exported_length = 0;
  transport = record { frames = []; sequence_number = 0 };
}

-- The encodings of the items, in order.
abbrev pub encodings : {Item : Type 0} → (Item → Bytes) → List Item → Bytes
encodings encoding [] = []
encodings encoding (item ∷ items) = encoding item ++ encodings encoding items

module _ {Z Item : Type 0} (zcbor : Zcbor Z Item) (size : ℕ) (publish : CanId → Bytes → Bool) where
  -- Calls of `encode` one after the other, until one fails.
  unfoldable pub encode_each : List Item → Stream Z Transport → Bool × Stream Z Transport
  encode_each [] s = (true, s)
  encode_each (item ∷ items) s =
      let (ok, s') = encode zcbor size 0 (write publish) item s in
      if ok then encode_each items s' else (false, s')

  module _ (filled : 0 < size) (encoding : Item → Bytes) (advances : Advances zcbor encoding)
      (published : (id : CanId) (b : Bytes) → publish id b ≡ true) where
    encode_each-Holds :
        (items : List Item) (s : Stream Z Transport) (all : Bytes)
        → Frames.Holds zcbor size s all
        → (encode_each items s).0 ≡ true
        → Frames.Holds zcbor size (encode_each items s).1 (all ++ encodings encoding items)
    unfolding encode_each
    encode_each-Holds [] s all h ok = rw (append_nil all) h
    encode_each-Holds (item ∷ items) s all h ok =
        elim (Bool-cases (encode zcbor size 0 (write publish) item s).0) [
          | inr bad ↦ let e = rw bad at ok in cc
          | inl good ↦
              let here =
                encode-Holds zcbor size filled encoding advances publish published item s all h
                  good in
              let rest =
                encode_each-Holds items (encode zcbor size 0 (write publish) item s).1
                  (all ++ encoding item) here (rw good at ok) in
              rw (good, sym (append_assoc all (encoding item) (encodings encoding items))) rest
        ]

    pub begin_report-Holds :
        (enhanced : Bool)
        → Frames.Holds zcbor size
            (begin_report zcbor size enhanced)
            ((if enhanced then 0x1e else 0x1f) ∷ [])
    unfolding begin_report sent
    begin_report-Holds enhanced =
        let (p, n) = advances.news 1 (size * 2 - 1) (if enhanced then 3 else 2) in
        record {
          bytes = refl;
          here = p;
          full = tt;
          exported = omega arith;
          fits = omega (arith, p, n);
          numbered = refl;
        }

    -- If every item was encoded, and publishing succeeds, the frames of the report hold the request type
    -- and the encodings of the items, in order and nothing else. All frames but the last are full; they are
    -- numbered from 0, the first is marked as such, those behind it as consecutive, and the last one as
    -- the last or, if it is alone, as single. For any size of a frame but 0, and a zcbor that writes no more
    -- than the room that it is given.
    pub report_lem :
        (enhanced : Bool) (items : List Item)
        → (encode_each items (begin_report zcbor size enhanced)).0 ≡ true
        → (t : Stream Z Transport) × (flush zcbor size 0
              (write publish)
              (encode_each items (begin_report zcbor size enhanced)).1
            ≡ (true, t))
          × Complete size t.transport.frames
              ((if enhanced then 0x1e else 0x1f) ∷ encodings encoding items)
    report_lem enhanced items ok =
        flush-Complete zcbor size filled encoding advances publish published _ _ (
          encode_each-Holds items (begin_report zcbor size enhanced) _ (begin_report-Holds enhanced)
            ok)

pub frame_id-Holds :
    (t : MultiFrameMessageType) (n : ℕ)
    → n < 256
    → Holds (frame_id t n) (record {
      spare = 0;
      priority = 7;
      type = 1;
      bridge = 0;
      message_number = 0;
      multi_frame_type = multi_frame_message_type t / 2 ^ 12;
      sequence_number = n % 16;
      source = 0;
    })
unfolding frame_id layout message_type message_priority
frame_id-Holds t n h =
    let blank : CanId = record { id = 0; mask = 0 } in
    let ranked = set_message_priority report_low blank in
    let typed = set_message_type multi_frame_report ranked in
    let framed = set_multi_frame_message_type t typed in
    let rank = set_message_priority-Holds report_low blank (omega arith) in
    let type = set_message_type-Holds multi_frame_report ranked rank.word in
    let kind = set_multi_frame_message_type-Holds t typed type.word in
    let number = set_sequence_number-Holds n framed h kind.word in
    record {
      word = number.word;
      fields =
          number.fields
          ∙ ap {A = Layout} (λ l. record l { sequence_number = n % 16 })
              (kind.fields
                ∙ ap {A = Layout}
                    (λ l. record l { multi_frame_type = multi_frame_message_type t / 2 ^ 12 })
                    (type.fields ∙ ap {A = Layout} (λ l. record l { type = 1 }) rank.fields));
    }

-- The identifier of a frame: a report of low priority, with the frame's type and the low four bits of its
-- number, and all other fields 0.
frame_id_lem :
    (t : MultiFrameMessageType) (n : ℕ)
    → n < 256
    → layout (frame_id t n).id ≡ record {
      spare = 0;
      priority = 7;
      type = 1;
      bridge = 0;
      message_number = 0;
      multi_frame_type = multi_frame_message_type t / 2 ^ 12;
      sequence_number = n % 16;
      source = 0;
    }
frame_id_lem t n h = (frame_id-Holds t n h).fields
