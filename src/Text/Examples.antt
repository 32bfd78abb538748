-- ===== src/Text/Examples.antt =====
-- The theorems on src/ThingSetTextEncoder.cpp at small values.
use thingsetplusplus.Prelude.{
  ℕ, ◌+◌, ◌<◌, ◌≡◌, refl, true, false, List, [], ◌∷◌, ◌++◌, length, arith,
}
use thingsetplusplus.Bytes.{Bytes}
use thingsetplusplus.Flattening.Traverse.{concat}
use thingsetplusplus.Text.Encoder.{
  TextEncoder, Act, onto, append, decimal, encode_number, encode_string, encode_array, encode_map,
  encode_list, strip, any, abbreviate_arrays,
}
use thingsetplusplus.Text.Encoder.Writes.{
  Writes, Each, pair_texts, separated, append_format-Writes, and-Writes, append-Writes,
  encode_array-Writes, encode_map-Writes,
}
use thingsetplusplus.Text.Encoder.Bounds.{Safe, append_format-Safe, encode_array-Safe}
use thingsetplusplus.Text.Encoder.Defects.{encode_list-joins}

number-Writes : (n : ℕ) → Writes (encode_number n) (decimal n)
unfolding encode_number
number-Writes n = append_format-Writes (decimal n)

string-Writes : (s : Bytes) → Writes (encode_string s) (b'"' ∷ (s ++ b'"' ∷ []))
unfolding encode_string
string-Writes s =
    and-Writes (append b'"') _ (b'"' ∷ []) (s ++ b'"' ∷ []) (append-Writes b'"')
      (and-Writes _ _ s (b'"' ∷ []) (append_format-Writes s) (append-Writes b'"'))

number-Safe : (n : ℕ) → Safe (encode_number n)
unfolding encode_number
number-Safe n = append_format-Safe (decimal n)

abbrev numbers : List Act
numbers = encode_number 1 ∷ encode_number 23 ∷ []

abbrev texts : List Bytes
texts = decimal 1 ∷ decimal 23 ∷ []

numbers-Each : Each numbers texts
numbers-Each = (number-Writes 1, (number-Writes 23, tt))

encode_array-Writes_example : Writes (encode_array 8 numbers) (91 ∷ separated texts ++ 93 ∷ [])
encode_array-Writes_example = encode_array-Writes 8 numbers texts numbers-Each

encode_map-Writes_example :
    Writes
      (encode_map ((encode_string (118 ∷ []), encode_number 5) ∷ []))
      (123 ∷ separated (pair_texts ((b'"' ∷ (118 ∷ [] ++ b'"' ∷ []), decimal 5) ∷ [])) ++ 125 ∷ [])
encode_map-Writes_example =
    encode_map-Writes ((encode_string (118 ∷ []), encode_number 5) ∷ [])
      ((b'"' ∷ (118 ∷ [] ++ b'"' ∷ []), decimal 5) ∷ [])
      (string-Writes (118 ∷ []), number-Writes 5, tt)

encode_array-Safe_example : Safe (encode_array 8 numbers)
encode_array-Safe_example = encode_array-Safe 8 numbers (number-Safe 1, (number-Safe 23, tt))

-- Four bytes of buffer.
abbrev four : TextEncoder
four = record { written = []; response_size = 4; depth = 0; options = 0 }

abbrev wide : TextEncoder
wide = record { written = []; response_size = 40; depth = 0; options = 0 }

no_options : any wide.options abbreviate_arrays ≡ false
unfolding any
no_options = refl

room : 0 + length (concat texts) + 2 < 40
unfolding concat decimal
room = omega arith

no_comma : strip (onto (concat texts) (91 ∷ [])) ≡ onto (concat texts) (91 ∷ [])
unfolding strip onto concat decimal
no_comma = refl

encode_list-joins_example :
    encode_list numbers wide ≡ (true, record wide { written = 93 ∷ onto (concat texts) (91 ∷ []) })
encode_list-joins_example =
    encode_list-joins numbers texts wide numbers-Each room (omega arith) no_options no_comma
