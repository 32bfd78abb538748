-- ===== src/Streaming/Examples.antt =====
-- The theorems on CAN reports at frames of four bytes, with items that are two bytes each.
use thingsetplusplus.Prelude.{
  ℕ, ◌+◌, ◌-◌, ◌≡◌, refl, Bool, true, false, List, [], ◌∷◌, leb, if◌then◌else◌, arith,
}
use thingsetplusplus.Bytes.{Bytes}
use thingsetplusplus.Can.Id.{CanId}
use thingsetplusplus.Streaming.{
  Zcbor, Stream, encode, flush, Transport, frame_type, write, write_if_necessary, put_item, send,
}
use thingsetplusplus.Streaming.Frames.{Advances, Complete}
use thingsetplusplus.Streaming.Report.{begin_report, encodings, encode_each, report_lem}

-- A state is the position and what may be written.
abbrev pub pairs : Zcbor (ℕ × ℕ) ℕ
pairs = record {
  put = λ n z. if leb 2 z.1 then (true, 24 ∷ n ∷ [], (z.0 + 2, z.1 - 2)) else (false, [], z);
  position = λ z. z.0;
  room = λ z. z.1;
  update_state = λ p room z. (p, room);
  new_state = λ p room count. (p, room);
}

abbrev pub pair : ℕ → Bytes
pair n = 24 ∷ n ∷ []

pub pairs-Advances : Advances pairs pair
pairs-Advances = record {
  put_advances = λ n z. ground arith;
  put_within = λ n z. ground arith;
  put_takes = λ n z. ground arith;
  put_encodes = λ n z ok. ground arith;
  updates = λ p n z. (refl, refl);
  news = λ p n count. (refl, refl);
}

abbrev pub accepted : CanId → Bytes → Bool
accepted id b = true

-- A number, and a map (130) of two elements with its end.
abbrev pub items : List ℕ
items = 30 ∷ 130 ∷ 50 ∷ 60 ∷ 200 ∷ []

pub all_encoded : (encode_each pairs 4 accepted items (begin_report pairs 4 false)).0 ≡ true
unfolding encode_each begin_report encode write_if_necessary put_item write send frame_type
all_encoded = refl

report_lem_example :
    (t : Stream (ℕ × ℕ) Transport) × (flush pairs 4 0
        (write accepted)
        (encode_each pairs 4 accepted items (begin_report pairs 4 false)).1
      ≡ (true, t))
    × Complete 4 t.transport.frames (0x1f ∷ encodings pair items)
report_lem_example =
    report_lem pairs 4 accepted (omega arith) pair pairs-Advances (λ id b. refl) false items
      all_encoded
