-- ===== src/Streaming/Decoder/Examples.antt =====
-- The theorems on reports that are received at frames of four bytes, with items of two bytes each, for a sender with
-- the address 5 and a bus that pads a frame of one byte to two.
use thingsetplusplus.Prelude.{
  ℕ, zero, suc, ◌+◌, true, ◌-◌, ◌≤◌, ◌≡◌, refl, false, List, [], ◌∷◌, Option, none, some, map, ltb,
  leb, ◌==◌, if◌then◌else◌, length, replicate, arith,
}
use thingsetplusplus.Bytes.{Bytes}
use thingsetplusplus.Can.Id.{
  get_source, set_source, set_message_number, set_message_priority, set_message_type,
  set_multi_frame_message_type, set_sequence_number, multi_frame_message_type, message_type,
  message_priority,
}
use thingsetplusplus.Streaming.{
  encode, flush, Frame, frame_id, frame_type, write, write_if_necessary, write_rest, put_item, send,
}
use thingsetplusplus.Streaming.Report.{begin_report, encode_each}
use thingsetplusplus.Streaming.Examples.{pairs, pair, pairs-Advances, items, accepted, all_encoded}
use thingsetplusplus.Streaming.Decoder.{
  Reader, StreamingDecoder, decode_each, ensure_length, on_bus,
}
use thingsetplusplus.Streaming.Decoder.Buffer.{Decodes, AreCounted}
use thingsetplusplus.Streaming.Decoder.Bus.{arrivals}
use thingsetplusplus.Streaming.Decoder.Handled.{handle_each, delivered_by, frames_of}
use thingsetplusplus.Streaming.Decoder.Report.{Ends, Sender, report_arrives}
use thingsetplusplus.Streaming.Decoder.Beyond.{ensure_length-beyond}

-- A state is the position, what may be read, and the elements that are left. A number below 128 is an element, one
-- below 200 an element with elements of its own, and 200 ends those.
abbrev count : ℕ → List ℕ → Option (List ℕ)
count n [] = none
count n (zero ∷ left) = if n == 200 then some left else none
count n (suc k ∷ left) =
    if ltb n 128 then some (k ∷ left) else if ltb n 200 then some ((n - 128) ∷ k ∷ left) else none

abbrev State : Type 0
State = ℕ × ℕ × List ℕ

abbrev advance : ℕ → State → Option (List ℕ) → Option ℕ × State
advance n z none = (none, z)
advance n (p, room, old) (some left) =
    if leb 2 room then (some n, (p + 2, room - 2, left)) else (none, (p, room, old))

abbrev get_pair : Bytes → State → Option ℕ × State
get_pair [] z = (none, z)
get_pair (x ∷ []) z = (none, z)
get_pair (x ∷ n ∷ rest) z = advance n z (count n z.2)

abbrev reader : Reader State ℕ
reader = record {
  get = get_pair;
  position = λ z. z.0;
  room = λ z. z.1;
  left = λ z. z.2;
  counts = count;
  update_state = λ p room z. (p, room, z.2);
  new_state = λ p room n. (p, room, n ∷ []);
}

reader-Decodes : Decodes reader pair
reader-Decodes = record {
  gets = λ n rest z left h counted.
      let enough : leb 2 z.1 ≡ true = ground arith in rw (counted, enough) (refl, refl, refl, refl);
  updates = λ p n z. (refl, refl, refl);
  news = λ p n k. (refl, refl, refl);
}

items-AreCounted : AreCounted reader items (2 ∷ [])
items-AreCounted = (_, refl, (_, refl, (_, refl, (_, refl, (_, refl, tt)))))

abbrev fresh : StreamingDecoder State Frame
fresh = record { state = (0, 0, []); buffer = replicate 8 0; queue = []; decoded_length = 0 }

abbrev ends : Ends (ℕ × ℕ) State ℕ
ends = record {
  writer = pairs;
  reader = reader;
  encoding = pair;
  size = 4;
  filled = omega arith;
  sized = omega arith;
  advances = pairs-Advances;
  decodes = reader-Decodes;
  fresh = fresh;
  empty = refl;
  capacity = refl;
}

abbrev even_padding : ℕ → Bytes
even_padding n = if n == 1 then 0 ∷ [] else []

even_padding-fits : (k : ℕ) → k ≤ 4 → k + length (even_padding k) ≤ 4
even_padding-fits k h = ground arith

abbrev sender : Sender 4
sender = record {
  address = 5;
  number = 1;
  address_fits = omega arith;
  number_fits = omega arith;
  padding = even_padding;
  padded = even_padding-fits;
  publish = accepted;
  published = λ id b. refl;
}

-- The second frame of another sender.
abbrev other : Frame
other = record { id = record { id = 0x1d101106; mask = 0 }; payload = 1 ∷ 2 ∷ [] }

-- The frames of the report, with one of the other sender behind the first.
abbrev with_other : List Frame → List Frame
with_other [] = []
with_other (f ∷ fs) = f ∷ other ∷ fs

abbrev own : List Frame
own =
    arrivals 5 1 sender.address_fits sender.number_fits even_padding
      (flush pairs 4 0 (write accepted)
        (encode_each pairs 4 accepted items (begin_report pairs 4 false)).1).1.transport.frames

own_frames : frames_of reader 4 fresh 5 (with_other own) ≡ own
unfolding frames_of encode_each begin_report encode write_if_necessary put_item write send
    frame_type flush write_rest arrivals on_bus get_source set_source set_message_number frame_id
    set_message_priority set_message_type set_multi_frame_message_type set_sequence_number
    multi_frame_message_type message_type message_priority
own_frames = refl

report_arrives_example :
    (d : StreamingDecoder State Frame) × (delivered_by reader 4 fresh 5
        (handle_each reader 4 fresh (with_other own) (λ k. none))
      ≡ d ∷ [])
    × ((decode_each (λ f. f.payload) reader 4 0 [] 5 d).0 ≡ map some items)
report_arrives_example =
    report_arrives ends sender false items (with_other own) (λ k. none) [] items-AreCounted
      all_encoded own_frames

-- A decoder that has read five bytes of its buffer, with a full frame waiting.
ensure_length-beyond_example :
    let d : StreamingDecoder State Bytes = record {
      state = (5, 3, 2 ∷ []);
      buffer = replicate 8 7;
      queue = (1 ∷ 2 ∷ 3 ∷ 4 ∷ []) ∷ [];
      decoded_length = 0;
    } in
    let d' = ensure_length (λ b. b) reader 4 0 d in
    12 ≤ reader.position d'.state + reader.room d'.state
ensure_length-beyond_example =
    ensure_length-beyond (λ b. b) reader 4 (omega arith) pair reader-Decodes (5, 3, 2 ∷ [])
      (replicate 8 7) (1 ∷ 2 ∷ 3 ∷ 4 ∷ []) [] 0 refl (omega arith) (omega arith) (omega arith)
