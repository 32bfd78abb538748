-- ===== src/Streaming.antt =====
-- include/thingset++/StreamingThingSetBinaryEncoder.hpp, and the encoder of CAN reports over it,
-- src/can/StreamingCanThingSetBinaryEncoder.cpp. The zcbor library is a parameter. Of the buffer the model
-- keeps the bytes from the end of the header to the payload pointer.
pub mod Frames
pub mod Report
pub mod Decoder
mod Examples
use thingsetplusplus.Prelude.{
  ℕ, suc, ◌+◌, ◌-◌, ◌*◌, ◌%◌, ◌<◌, ◌≡◌, Bool, true, false, List, [], ◌∷◌, ◌++◌, ◌==◌, ltb,
  if◌then◌else◌, length, take, drop,
}
use thingsetplusplus.Bytes.{Bytes}
use thingsetplusplus.Can.Id.{
  CanId, MultiFrameMessageType, first, consecutive, last, single, MessageType, MessagePriority,
  multi_frame_report, report_low, set_message_priority, set_message_type,
  set_multi_frame_message_type, set_sequence_number,
}

-- What the class calls of zcbor, on a state `Z`: `put` encodes an item at the payload pointer, and
-- returns the bytes that it wrote; `position` is the distance from the end of the header to that pointer, and
-- `room` what may be written from there; `update_state` and `new_state` set both, the latter also how many elements
-- there are.
pub record Zcbor (Z Item : Type 0) : Type 0 where
  pub put : Item → Z → Bool × Bytes × Z
  pub position : Z → ℕ
  pub room : Z → ℕ
  pub update_state : ℕ → ℕ → Z → Z
  pub new_state : ℕ → ℕ → ℕ → Z

pub record Stream (Z T : Type 0) : Type 0 where
  pub state : Z
  pub buffer : Bytes
  pub exported_length : ℕ
  pub transport : T

-- `write` is the virtual function, on the bytes that it sends: whether it is the last call, and how much
-- has been exported before.
module _ {Z Item T : Type 0} (zcbor : Zcbor Z Item) (size header_size : ℕ)
    (write : Bytes → Bool → ℕ → T → Bool × T) where
  unfoldable pub write_if_necessary : Stream Z T → Bool × Stream Z T
  write_if_necessary s =
      let data_size = size - header_size in
      let current_pos = zcbor.position s.state in
      let (ok, t) = write (take data_size s.buffer) false s.exported_length s.transport in
      let new_pos = current_pos - data_size in
      let moved : Stream Z T = record {
        state = zcbor.update_state new_pos (size * 2 - new_pos) s.state;
        buffer = drop data_size s.buffer;
        exported_length = s.exported_length + data_size;
        transport = t;
      } in
      if ltb data_size current_pos
      then (if ok then (true, moved) else (false, record s { transport = t }))
      else (true, s)

  -- An `encode` of the binary encoder: `ensureState() && zcbor_…(getState(), …)`.
  unfoldable pub put_item : Item → Stream Z T → Bool × Stream Z T
  put_item item s =
      let (ok, bytes, z) = zcbor.put item s.state in
      (ok, record s { state = z; buffer = s.buffer ++ bytes })

  unfoldable pub encode : Item → Stream Z T → Bool × Stream Z T
  unfolding write_if_necessary put_item
  encode item s =
      let (ok, s') = write_if_necessary s in if ok then put_item item s' else (false, s')

  unfoldable pub write_rest : Stream Z T → Bool × Stream Z T
  write_rest s =
      let current_length = zcbor.position s.state in
      let (ok, t) = write (take current_length s.buffer) true s.exported_length s.transport in
      (ok, record s { exported_length = s.exported_length + current_length; transport = t })

  unfoldable pub flush : Stream Z T → Bool × Stream Z T
  unfolding write_if_necessary write_rest
  flush s =
      let (ok, s') = write_if_necessary s in
      if ltb (size - header_size) (zcbor.position s.state)
      then (if ok then write_rest s' else (false, s'))
      else write_rest s

-- A CAN report: the frames that were published, the last one first, and `_sequenceNumber`, a `uint8_t`.
pub record Frame : Type 0 where
  pub id : CanId
  pub payload : Bytes

pub record Transport : Type 0 where
  pub frames : List Frame
  pub sequence_number : ℕ

unfoldable pub frame_id : MultiFrameMessageType → ℕ → CanId
frame_id frame_type sequence_number = set_sequence_number sequence_number (
    set_multi_frame_message_type frame_type (
      set_message_type multi_frame_report
        (set_message_priority report_low (record { id = 0; mask = 0 }))))

unfoldable pub frame_type : Bool → ℕ → MultiFrameMessageType
frame_type flushing exported_length =
    if exported_length == 0
    then (if flushing then single else first)
    else if flushing
    then last
    else consecutive

-- `publish` is ThingSetCanServerTransport::publish, of which the result is kept.
module _ (publish : CanId → Bytes → Bool) where
  unfoldable pub send : MultiFrameMessageType → Bytes → Transport → Bool × Transport
  unfolding frame_id
  send frame_type payload t =
      let id = frame_id frame_type t.sequence_number in
      (
        publish id payload,
        record {
          frames = record { id = id; payload = payload } ∷ t.frames;
          sequence_number = (t.sequence_number + 1) % 256;
        },
      )

  unfoldable pub write : Bytes → Bool → ℕ → Transport → Bool × Transport
  unfolding send frame_type
  write payload flushing exported_length t = send (frame_type flushing exported_length) payload t
