-- ===== src/Streaming/Decoder.antt =====
-- include/thingset++/StreamingThingSetBinaryDecoder.hpp, StreamingQueuingThingSetBinaryDecoder.hpp and
-- can/StreamingCanThingSetBinaryDecoder.hpp: the decoder that reads a report through a buffer of two frames, and
-- `handle` of ThingSetSubscriptionTransport.hpp, which gives every sender a decoder. The zcbor library is a parameter.
pub mod Fill
pub mod Cuts
pub mod Window
pub mod Buffer
pub mod Bus
pub mod Handled
pub mod Lockstep
pub mod Collected
pub mod Beyond
mod Examples
pub mod Report
use thingsetplusplus.Prelude.{
  ℕ, zero, suc, ◌+◌, ◌-◌, ◌*◌, ◌%◌, ◌^◌, Bool, true, false, ◌&&◌, ◌||◌, List, [], ◌∷◌, ◌++◌, Option,
  none, some, ◌==◌, ltb, leb, if◌then◌else◌, length, take, drop,
}
use thingsetplusplus.Bytes.{Bytes}
use thingsetplusplus.Can.Id.{
  CanId, first, last, single, multi_frame_message_type, get_multi_frame_message_type, get_source,
  set_source, set_message_number,
}
use thingsetplusplus.Streaming.{Frame}

-- What the class calls of zcbor, on a state `Z`: `get` decodes an item from the memory behind the payload
-- pointer, of which `room` bytes may be read; `position` is the distance of that pointer from the buffer's start;
-- `left` is the number of elements that are left to decode (`elem_count`), with those of the lists and maps around,
-- and `counts` what decoding an item leaves of them, if there is one left; `update_state` and `new_state` set the
-- pointer and the room, the latter also how many elements there are.
pub record Reader (Z Item : Type 0) : Type 0 where
  pub get : Bytes → Z → Option Item × Z
  pub position : Z → ℕ
  pub room : Z → ℕ
  pub left : Z → List ℕ
  pub counts : Item → List ℕ → Option (List ℕ)
  pub update_state : ℕ → ℕ → Z → Z
  pub new_state : ℕ → ℕ → ℕ → Z

pub record StreamingDecoder (Z M : Type 0) : Type 0 where
  pub state : Z
  pub buffer : Bytes
  pub queue : List M
  pub decoded_length : ℕ

unfoldable pub copy_to : ℕ → Bytes → Bytes → Bytes
copy_to pos bytes buffer = take pos buffer ++ bytes ++ drop (pos + length bytes) buffer

-- `memmove` of `n` bytes from the index `n` to the start.
unfoldable pub move_down : ℕ → Bytes → Bytes
move_down n buffer = take n (drop n buffer) ++ drop n buffer

-- `get_buffer` and `ends`, whether a message is the last or the single one of its report, are those of the messages.
module _ {M : Type 0} (get_buffer : M → Bytes) where
  unfoldable pub fill : ℕ → ℕ → List M → Bytes → ℕ × List M × Bytes
  unfolding copy_to
  fill pos max_size [] buffer = (pos, [], buffer)
  fill pos max_size (m ∷ ms) buffer =
      let b = get_buffer m in
      let rest = fill (pos + length b) max_size ms (copy_to pos b buffer) in
      if leb pos max_size && leb (pos + length b) max_size then rest else (pos, m ∷ ms, buffer)

  unfoldable pub read : ℕ → ℕ → List M → Bytes → ℕ × List M × Bytes
  unfolding fill
  read pos max_size [] buffer = (0, [], buffer)
  read pos max_size (m ∷ ms) buffer = fill pos max_size (m ∷ ms) buffer

  module _ {Z Item : Type 0} (zcbor : Reader Z Item) (size header_size : ℕ) where
    -- The number of bytes that zcbor may read is a `size_t`.
    unfoldable pub refill : StreamingDecoder Z M → StreamingDecoder Z M
    unfolding read move_down
    refill d =
        let data_size = size - header_size in
        let new_pos = zcbor.position d.state - data_size in
        let (read_size, queue, buffer) =
          read data_size (size * 2) d.queue (move_down data_size d.buffer) in
        record {
          state =
              zcbor.update_state new_pos ((data_size + read_size + 2 ^ 32 - new_pos) % 2 ^ 32)
                d.state;
          buffer = buffer;
          queue = queue;
          decoded_length = d.decoded_length + data_size;
        }

    unfoldable pub ensure_length : StreamingDecoder Z M → StreamingDecoder Z M
    unfolding refill
    ensure_length d = if ltb (size - header_size) (zcbor.position d.state) then refill d else d

    -- A `decode` of the binary decoder, `zcbor_…(getState(), …)`, where `beyond` is the memory behind the buffer.
    unfoldable pub decode_item : Bytes → StreamingDecoder Z M → Option Item × StreamingDecoder Z M
    unfolding ensure_length
    decode_item beyond d =
        let d' = ensure_length d in
        let (item, z) = zcbor.get (drop (zcbor.position d'.state) d'.buffer ++ beyond) d'.state in
        (item, record d' { state = z })

    -- As many calls of `decode`, one after the other.
    unfoldable pub decode_each :
        Bytes → ℕ → StreamingDecoder Z M → List (Option Item) × StreamingDecoder Z M
    unfolding decode_item
    decode_each beyond zero d = ([], d)
    decode_each beyond (suc n) d =
        let (item, d') = decode_item beyond d in
        let (items, d'') = decode_each beyond n d' in (item ∷ items, d'')

    unfoldable pub start : StreamingDecoder Z M → StreamingDecoder Z M
    unfolding read
    start d =
        let (_, queue, buffer) = read 0 (size * 2) d.queue d.buffer in
        record d { state = zcbor.new_state 1 (size * 2 - 1) 2; buffer = buffer; queue = queue }

    unfoldable pub enqueue : (M → Bool) → M → StreamingDecoder Z M → Bool × StreamingDecoder Z M
    unfolding start
    enqueue ends m d =
        let queued : StreamingDecoder Z M = record d { queue = d.queue ++ m ∷ [] } in
        if ends m then (true, start queued) else (false, queued)

-- The messages of a CAN bus. A frame's type is a field of its identifier.
unfoldable pub is_type : ℕ → ℕ → Frame → Bool
is_type a b f = let t = get_multi_frame_message_type f.id in t == a || t == b

unfoldable pub ends_report : Frame → Bool
unfolding is_type multi_frame_message_type
ends_report = is_type (multi_frame_message_type single) (multi_frame_message_type last)

unfoldable pub begins_report : Frame → Bool
unfolding is_type multi_frame_message_type
begins_report = is_type (multi_frame_message_type first) (multi_frame_message_type single)

-- What ThingSetCanServerTransport::publish sends for a frame, and the driver's padding to a length that a frame can
-- have.
unfoldable pub on_bus : ℕ → ℕ → (ℕ → Bytes) → Frame → Frame
on_bus node_address message_number padding f = record {
  id = set_message_number message_number (set_source node_address f.id);
  payload = f.payload ++ padding (length f.payload);
}

-- `decodersBySender`, where `fresh` is the default constructor.
module _ {Z Item : Type 0} (zcbor : Reader Z Item) (size : ℕ)
    (fresh : StreamingDecoder Z Frame) where
  abbrev pub Decoders : Type 0
  Decoders = ℕ → Option (StreamingDecoder Z Frame)

  unfoldable pub store : ℕ → StreamingDecoder Z Frame → Decoders → Decoders
  store key d ds k = if k == key then some d else ds k

  unfoldable pub find_decoder : Frame → ℕ → Decoders → Option (StreamingDecoder Z Frame)
  unfolding begins_report
  find_decoder f key ds = if begins_report f then some fresh else ds key

  -- The decoder that is handed to the callback, if it is, and what the map holds before the callback.
  unfoldable pub handle_found :
      Frame
      → Option (StreamingDecoder Z Frame)
      → Decoders
      → Option (StreamingDecoder Z Frame) × Decoders
  unfolding store enqueue ends_report
  handle_found f none ds = (none, ds)
  handle_found f (some d) ds =
      let (ready, d') = enqueue (λ m. m.payload) zcbor size 0 ends_report f d in
      (if ready then some d' else none, store (get_source f.id) d' ds)

  unfoldable pub handle : Frame → Decoders → Option (StreamingDecoder Z Frame) × Decoders
  unfolding find_decoder handle_found
  handle f ds = handle_found f (find_decoder f (get_source f.id) ds) ds
