-- ===== src/Streaming/Decoder/Report.antt =====
-- A CAN report on its way from src/can/StreamingCanThingSetBinaryEncoder.cpp to the decoder of
-- include/thingset++/StreamingQueuingThingSetBinaryDecoder.hpp that a subscriber is given.
use thingsetplusplus.Prelude.{
  ℕ, ◌+◌, ◌*◌, ◌-◌, ◌^◌, ◌≤◌, ◌<◌, ◌≡◌, refl, sym, ap, ◌∙◌, Bool, true, List, [], ◌∷◌, ◌++◌, some,
  map, if◌then◌else◌, length,
}
use thingsetplusplus.Bytes.{Bytes}
use thingsetplusplus.Can.Id.{CanId}
use thingsetplusplus.Streaming.{Zcbor, flush, Frame, write}
use thingsetplusplus.Streaming.Frames.{sent, Advances}
use thingsetplusplus.Streaming.Report.{begin_report, encode_each, report_lem, begin_report-Holds}
use thingsetplusplus.Streaming.Decoder.{Reader, StreamingDecoder, Decoders, decode_each}
use thingsetplusplus.Streaming.Decoder.Buffer.{Decodes, AreCounted}
use thingsetplusplus.Streaming.Decoder.Bus.{arrivals, arrivals-waiting, arrivals-FullButLast}
use thingsetplusplus.Streaming.Decoder.Handled.{
  handle_each, delivered_by, frames_of, receive_each, handle_each-apart,
}
use thingsetplusplus.Streaming.Decoder.Collected.{receive_each-report, start-Reads}
use thingsetplusplus.Streaming.Decoder.Lockstep.{encode_each-Fits, decode_each-Reads}

-- The two ends of a subscription: zcbor, the encoding that it writes and reads, the size of a frame, and the decoder
-- that is made for a new report.
pub record Ends (W R Item : Type 0) : Type 0 where
  pub writer : Zcbor W Item
  pub reader : Reader R Item
  pub encoding : Item → Bytes
  pub size : ℕ
  pub filled : 0 < size
  pub sized : size < 2 ^ 16
  pub advances : Advances writer encoding
  pub decodes : Decodes reader encoding
  pub fresh : StreamingDecoder R Frame
  pub empty : fresh.queue ≡ []
  pub capacity : length fresh.buffer ≡ size * 2

-- The sender: its address, the number of the report, how the driver pads a frame, and a bus that takes all frames.
pub record Sender (size : ℕ) : Type 0 where
  pub address : ℕ
  pub number : ℕ
  pub address_fits : address < 256
  pub number_fits : number < 256
  pub padding : ℕ → Bytes
  pub padded : (k : ℕ) → k ≤ size → k + length (padding k) ≤ size
  pub publish : CanId → Bytes → Bool
  pub published : (id : CanId) (b : Bytes) → publish id b ≡ true

module _ {W R Item : Type 0} (e : Ends W R Item) (s : Sender e.size) where
  -- If a sender encoded the items of a report, and the frames of the report are what arrives of that sender, in order
  -- but with frames of any other senders in between, the subscriber is called for that sender once, with a
  -- decoder from which as many calls of `decode` as there are items give exactly the items, in order. For any size of
  -- a frame from 1 to 65535, items for which the two elements that the decoder begins with are enough (their own and
  -- those of the lists and maps that they open), whatever was received before, and whatever lies in memory behind
  -- the decoder's buffer; and for a zcbor that writes and reads no more than the room it is given.
  pub report_arrives :
      (enhanced : Bool) (items : List Item) (arrived : List Frame)
      (before : Decoders e.reader e.size e.fresh) (beyond : Bytes)
      → AreCounted e.reader items (2 ∷ [])
      → (encode_each e.writer e.size s.publish items (begin_report e.writer e.size enhanced)).0
        ≡ true
      → frames_of e.reader e.size e.fresh s.address arrived
        ≡ arrivals s.address s.number s.address_fits s.number_fits s.padding
            (flush e.writer e.size 0
              (write s.publish)
              (encode_each e.writer e.size s.publish items
                (begin_report e.writer e.size enhanced)).1).1.transport.frames
      → (d : StreamingDecoder R Frame) × (delivered_by e.reader e.size e.fresh s.address
            (handle_each e.reader e.size e.fresh arrived before)
          ≡ d ∷ [])
        × ((decode_each (λ f. f.payload) e.reader e.size 0 beyond (length items) d).0
            ≡ map some items)
  unfolding begin_report
  report_arrives enhanced items arrived before beyond counted ok frames =
      let w = e.writer in
      let begun =
        begin_report-Holds w e.size s.publish e.filled e.encoding e.advances s.published enhanced in
      let first = (e.advances.news 1 (e.size * 2 - 1) (if enhanced then 3 else 2)).0 in
      let (t, sending, c) =
        report_lem w e.size s.publish e.filled e.encoding e.advances s.published enhanced items
          ok in
      let bus : List Frame → List Frame =
        arrivals s.address s.number s.address_fits s.number_fits s.padding in
      let queue = bus (c.last_frame ∷ c.before) in
      let received = frames ∙ ap (λ x. bus x.1.transport.frames) sending ∙ ap bus c.are in
      let delivered =
        handle_each-apart e.reader e.size e.fresh s.address arrived before (before s.address) refl
        ∙ ap (λ fs. receive_each e.reader e.size e.fresh fs (before s.address)) received
        ∙ receive_each-report e.reader e.size e.fresh e.empty s.address s.number s.address_fits
            s.number_fits s.padding c.last_frame c.before (before s.address) c.full c.ends in
      let bytes =
        arrivals-waiting s.address s.number s.address_fits s.number_fits s.padding e.size s.padded
          c.last_frame c.before c.full
        ∙ ap (◌++ s.padding (length c.last_frame.payload)) (ap sent (sym c.are) ∙ c.together) in
      let queued =
        arrivals-FullButLast s.address s.number s.address_fits s.number_fits s.padding e.size
          s.padded c.last_frame c.before c.full c.short in
      let (reads, position, left) =
        start-Reads e.reader e.size e.filled e.encoding e.decodes e.fresh queue _ _ _ queued bytes
          e.capacity in
      let fits =
        encode_each-Fits w e.size e.filled e.encoding e.advances s.publish s.published
          (λ (f : Frame). f.payload) e.reader e.sized e.decodes items
          (begin_report e.writer e.size enhanced) _ begun ok in
      (
        _,
        delivered,
        decode_each-Reads w e.size e.filled e.encoding e.advances s.publish s.published
            (λ f. f.payload) e.reader e.sized e.decodes beyond items _ reads
            (rw (position) (rw first at fits)) (rw (left) counted),
      )
