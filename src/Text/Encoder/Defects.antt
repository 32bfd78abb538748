-- ===== src/Text/Encoder/Defects.antt =====
-- Where src/ThingSetTextEncoder.cpp loses or joins text.
use thingsetplusplus.Prelude.{
  ℕ, suc, ◌+◌, ◌-◌, ◌%◌, ◌<◌, ◌≡◌, refl, ap, true, false, List, [], ◌∷◌, ◌++◌, ltb, leb, length,
  length-append, arith,
}
use thingsetplusplus.Bytes.{Bytes}
use thingsetplusplus.Text.Encoder.{
  TextEncoder, Act, position, onto, append, printed, append_format, deeper, shallower, strip,
  strip_separator, encode_list_start, encode_list_end, any, abbreviate_arrays, encode_all,
  encode_list,
}
use thingsetplusplus.Text.Encoder.Writes.{length-onto, onto-append, Each, extended}
use thingsetplusplus.Flattening.Traverse.{concat}

printed_exact : (xs : Bytes) (c : ℕ) → printed (xs ++ c ∷ []) (length (xs ++ c ∷ [])) ≡ xs ++ 0 ∷ []
unfolding printed
printed_exact [] c = ground arith
printed_exact (x ∷ []) c = ground arith
printed_exact (x ∷ y ∷ xs) c =
    let one_less : suc (suc (length (xs ++ c ∷ []))) - 1 ≡ suc (length (xs ++ c ∷ [])) =
      omega arith in
    rw (one_less) (ap (◌∷◌ x) (printed_exact (y ∷ xs) c))

-- A text that fits into what is left of the buffer exactly is reported as written, but its last byte is
-- the terminator of `snprintf`.
pub append_format-exact_fit :
    (xs : Bytes) (c : ℕ) (e : TextEncoder)
    → position e + length (xs ++ c ∷ []) ≡ e.response_size
    → append_format (xs ++ c ∷ []) e ≡ (true, record e { written = 0 ∷ onto xs e.written })
unfolding append_format onto
append_format-exact_fit xs c e fits =
    let room : e.response_size - position e ≡ length (xs ++ c ∷ []) = omega arith in
    let goes : ltb e.response_size (position e + length (xs ++ c ∷ [])) ≡ false = ground arith in
    rw (goes, room, printed_exact xs c, onto-append xs (0 ∷ []) e.written) refl

encode_all-Each :
    (items : List Act) (ts : List Bytes) (e : TextEncoder)
    → Each items ts
    → position e + length (concat ts) < e.response_size
    → e.depth < 256
    → any e.options abbreviate_arrays ≡ false
    → encode_all items e ≡ (true, extended e (concat ts))
unfolding encode_all concat onto
encode_all-Each [] [] e each room d o = refl
encode_all-Each [] (t ∷ ts) e each room d o = absurd each
encode_all-Each (a ∷ acts) [] e each room d o = absurd each
encode_all-Each (a ∷ acts) (t ∷ ts) e each room d o =
    let len = length-append t (concat ts) in
    let one = each.0.writes e (omega arith) d o in
    let rest =
      encode_all-Each acts ts (extended e t) each.1 (omega (arith, length-onto t e.written)) d o in
    rw (one, rest, onto-append t (concat ts) e.written) refl

-- Encoding a std::list writes no separators: unless the last text ends with a comma, the texts of the
-- elements stand between the brackets one directly behind the other. For elements that write their texts, and a buffer with
-- room for all of it.
pub encode_list-joins :
    (items : List Act) (ts : List Bytes) (e : TextEncoder)
    → Each items ts
    → position e + length (concat ts) + 2 < e.response_size
    → e.depth < 256
    → any e.options abbreviate_arrays ≡ false
    → strip (onto (concat ts) (b'[' ∷ e.written)) ≡ onto (concat ts) (b'[' ∷ e.written)
    → encode_list items e
      ≡ (true, record e { written = b']' ∷ onto (concat ts) (b'[' ∷ e.written) })
unfolding encode_list encode_list_start encode_list_end append deeper shallower strip_separator
encode_list-joins items ts e each room d o no_comma =
    let inner = record e { written = b'[' ∷ e.written; depth = (e.depth + 1) % 256 } in
    let start : leb e.response_size (position e) ≡ false = ground arith in
    let depth : ((e.depth + 1) % 256 + 255) % 256 ≡ e.depth = omega arith in
    let body = encode_all-Each items ts inner each (omega arith) (omega arith) o in
    rw (start, body, no_comma, depth) (ground (arith, length-onto (concat ts) (b'[' ∷ e.written)))
