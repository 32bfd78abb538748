-- ===== src/Text/Encoder/Bounds.antt =====
-- The calls of src/ThingSetTextEncoder.cpp stay within the buffer, also those that fail.
use thingsetplusplus.Prelude.{
  ℕ, zero, suc, ◌+◌, ◌-◌, ◌≤◌, ◌≡◌, refl, ap, ◌∙◌, inl, inr, Bool, true, false, ◌&&◌, List, [], ◌∷◌,
  ltb, leb, length, arith, Bool-cases,
}
use thingsetplusplus.Bytes.{Bytes}
use thingsetplusplus.Text.Encoder.{
  TextEncoder, Act, ◌and◌, position, append, printed, append_format, encode_list_separator, deeper,
  shallower, strip, strip_separator, encode_map_start, encode_map_end, encode_list_start,
  encode_list_end, rendered_list_length, encode_items, mark_truncation, encode_array,
  encode_truncation_marker,
}
use thingsetplusplus.Text.Encoder.Writes.{length-onto}

abbrev pub InBuffer : TextEncoder → Type 0
InBuffer e = position e ≤ e.response_size

-- A call after which the position is within the same buffer.
pub record Safe (act : Act) : Type 0 where
  pub stays :
      (e : TextEncoder)
      → InBuffer e
      → InBuffer (act e).1 × ((act e).1.response_size ≡ e.response_size)

pub append-Safe : (c : ℕ) → Safe (append c)
unfolding append
append-Safe c = record {
  stays = λ e h. elim (Bool-cases (leb e.response_size (position e))) [
    | inl full ↦ rw (full) (h, refl)
    | inr room ↦ rw (room) (ground arith, refl)
  ];
}

length-printed : (text : Bytes) (room : ℕ) → length (printed text room) ≡ length text
unfolding printed
length-printed [] room = refl
length-printed (c ∷ []) room = ground arith
length-printed (c ∷ d ∷ cs) room = ap suc (length-printed (d ∷ cs) (room - 1))

pub append_format-Safe : (text : Bytes) → Safe (append_format text)
unfolding append_format
append_format-Safe text = record {
  stays = λ e h. elim (Bool-cases (ltb e.response_size (position e + length text))) [
    | inl full ↦ rw (full) (h, refl)
    | inr room ↦
        rw
          (
            room,
            length-onto (printed text (e.response_size - position e)) e.written,
            length-printed text (e.response_size - position e),
          )
          (ground arith, refl)
  ];
}

pub and-Safe : (a b : Act) → Safe a → Safe b → Safe (a and b)
and-Safe a b first next = record {
  stays = λ e h.
      let (here, size) = first.stays e h in
      elim (Bool-cases (a e).0) [
        | inr failed ↦ rw (failed) (here, size)
        | inl fine ↦ let (there, size') = next.stays (a e).1 here in rw (fine) (there, size' ∙ size)
      ];
}

strip-le : (w : Bytes) → length (strip w) ≤ length w
unfolding strip
strip-le [] = omega arith
strip-le (c ∷ cs) = ground arith

list_start-Safe : Safe encode_list_start
unfolding encode_list_start deeper
list_start-Safe = record { stays = λ e h. (append-Safe b'[').stays (deeper e) h }

map_start-Safe : Safe encode_map_start
unfolding encode_map_start deeper
map_start-Safe = record { stays = λ e h. (append-Safe b'{').stays (deeper e) h }

list_end-Safe : Safe encode_list_end
unfolding encode_list_end shallower strip_separator
list_end-Safe = record {
  stays = λ e h.
      (append-Safe b']').stays (strip_separator (shallower e)) (omega (arith, strip-le e.written));
}

map_end-Safe : Safe encode_map_end
unfolding encode_map_end shallower strip_separator
map_end-Safe = record {
  stays = λ e h.
      (append-Safe b'}').stays (strip_separator (shallower e)) (omega (arith, strip-le e.written));
}

separator-Safe : Safe encode_list_separator
unfolding encode_list_separator
separator-Safe = append-Safe b','

abbrev pub AllSafe : List Act → Type 0
AllSafe [] = Unit {0}
AllSafe (a ∷ acts) = Safe a × AllSafe acts

encode_items-Safe :
    (n : ℕ) (items : List Act) (result : Bool) → AllSafe items → Safe (encode_items n items result)
unfolding encode_items
encode_items-Safe zero items result all = record { stays = λ e h. (h, refl) }
encode_items-Safe (suc n) [] result all = record { stays = λ e h. (h, refl) }
encode_items-Safe (suc n) (item ∷ items) result all = record {
  stays = λ e h.
      let (here, size) = (and-Safe item encode_list_separator all.0 separator-Safe).stays e h in
      let step = (item and encode_list_separator) e in
      let (there, size') = (encode_items-Safe n items (result && step.0) all.1).stays step.1 here in
      (there, size' ∙ size);
}

mark_truncation-Safe : (cut result : Bool) → Safe (mark_truncation cut result)
unfolding mark_truncation encode_truncation_marker
mark_truncation-Safe false result = record { stays = λ e h. (h, refl) }
mark_truncation-Safe true result = record {
  stays = λ e h.
      (and-Safe _ _
          (and-Safe _ _ (append-Safe b'.') (and-Safe _ _ (append-Safe b'.') (append-Safe b'.')))
          separator-Safe).stays
        e h;
}

-- Whatever the number of elements and however little room there is, encoding an array whose elements
-- stay within the buffer stays within the buffer, whether or not it is cut short, and whether or not it
-- succeeds.
pub encode_array-Safe :
    (array_max : ℕ) (items : List Act) → AllSafe items → Safe (encode_array array_max items)
unfolding encode_array
encode_array-Safe array_max items all = record {
  stays = λ e h.
      let size = length items in
      let rendered = rendered_list_length array_max size e in
      let e1 = encode_list_start e in
      let (h1, s1) = list_start-Safe.stays e h in
      let e2 = encode_items rendered items e1.0 e1.1 in
      let (h2, s2) = (encode_items-Safe rendered items e1.0 all).stays e1.1 h1 in
      let e3 = mark_truncation (ltb rendered size) e2.0 e2.1 in
      let (h3, s3) = (mark_truncation-Safe (ltb rendered size) e2.0).stays e2.1 h2 in
      let (h4, s4) = list_end-Safe.stays e3.1 h3 in
      elim (Bool-cases e3.0) [
        | inl good ↦ rw (good) (h4, s4 ∙ s3 ∙ s2 ∙ s1)
        | inr bad ↦ rw (bad) (h3, s3 ∙ s2 ∙ s1)
      ];
}
