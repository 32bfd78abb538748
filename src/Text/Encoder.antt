-- ===== src/Text/Encoder.antt =====
-- src/ThingSetTextEncoder.cpp and include/thingset++/ThingSetTextEncoder.hpp, with the lists, maps and
-- arrays of include/thingset++/ThingSetEncoder.hpp over it. The bytes of the buffer before the position
-- are a list with the last one first.
pub mod Writes
pub mod Bounds
pub mod Defects
use thingsetplusplus.Prelude.{
  ℕ, zero, suc, ◌+◌, ◌-◌, ◌/◌, ◌%◌, Bool, true, false, ◌&&◌, not, List, [], ◌∷◌, ◌++◌, ◌==◌, ltb,
  leb, bit_and, if◌then◌else◌, length,
}
use thingsetplusplus.Bytes.{Bytes}

pub record TextEncoder : Type 0 where
  pub written : Bytes
  pub response_size : ℕ
  pub depth : ℕ
  pub options : ℕ

-- enum class TextEncoderOptions
abbrev pub abbreviate_arrays : ℕ
abbreviate_arrays = 1

abbrev pub outline_groups : ℕ
outline_groups = 2

unfoldable pub any : ℕ → ℕ → Bool
any value flag = not (bit_and value flag == 0)

-- A call that returns whether it succeeded.
abbrev pub Act : Type 0
Act = TextEncoder → Bool × TextEncoder

-- `a && b` on calls.
infixr 4 ◌and◌
abbrev pub ◌and◌ : Act → Act → Act
a and b = λ e. let (ok, e') = a e in if ok then b e' else (false, e')

abbrev pub position : TextEncoder → ℕ
position e = length e.written

-- Writes bytes behind those of the buffer.
unfoldable pub onto : Bytes → Bytes → Bytes
onto [] written = written
onto (c ∷ cs) written = onto cs (c ∷ written)

unfoldable pub append : ℕ → Act
append value e =
    if leb e.response_size (position e)
    then (false, e)
    else (true, record e { written = value ∷ e.written })

-- What `snprintf` leaves in `room` bytes of a text that is no longer than that: the terminator takes
-- the place of the last byte if there is no room for both.
unfoldable pub printed : Bytes → ℕ → Bytes
printed [] room = []
printed (c ∷ []) room = if leb room 1 then 0 ∷ [] else c ∷ []
printed (c ∷ d ∷ cs) room = c ∷ printed (d ∷ cs) (room - 1)

-- `appendFormat` of a value whose text is `text`.
unfoldable pub append_format : Bytes → Act
unfolding onto printed
append_format text e =
    if ltb e.response_size (position e + length text)
    then (false, e)
    else (true, record e { written = onto (printed text (e.response_size - position e)) e.written })

-- The digits of a number.
unfoldable pub decimal_loop : ℕ → ℕ → Bytes → Bytes
decimal_loop zero n digits = digits
decimal_loop (suc fuel) n digits =
    let more = decimal_loop fuel (n / 10) ((n % 10 + b'0') ∷ digits) in
    if ltb n 10 then (n + b'0') ∷ digits else more

unfoldable pub decimal : ℕ → Bytes
unfolding decimal_loop
decimal n = decimal_loop (suc n) n []

-- The overloads for unsigned integers, and for strings.
unfoldable pub encode_number : ℕ → Act
unfolding append_format decimal
encode_number n = append_format (decimal n)

unfoldable pub encode_string : Bytes → Act
unfolding append append_format
encode_string s = append b'"' and append_format s and append b'"'

unfoldable pub encode_null : Act
unfolding append_format
encode_null = append_format (110 ∷ 117 ∷ 108 ∷ 108 ∷ [])

unfoldable pub encode_list_separator : Act
unfolding append
encode_list_separator = append b','

unfoldable pub encode_key_value_pair_separator : Act
unfolding append
encode_key_value_pair_separator = append b':'

-- `_depth` is a `uint8_t`.
unfoldable pub deeper : TextEncoder → TextEncoder
deeper e = record e { depth = (e.depth + 1) % 256 }

unfoldable pub shallower : TextEncoder → TextEncoder
shallower e = record e { depth = (e.depth + 255) % 256 }

unfoldable pub strip : Bytes → Bytes
strip [] = []
strip (c ∷ cs) = if c == b',' then cs else c ∷ cs

unfoldable pub strip_separator : TextEncoder → TextEncoder
unfolding strip
strip_separator e = record e { written = strip e.written }

unfoldable pub encode_map_start : Act
unfolding append deeper
encode_map_start e = append b'{' (deeper e)

unfoldable pub encode_map_end : Act
unfolding append shallower strip_separator
encode_map_end e = append b'}' (strip_separator (shallower e))

unfoldable pub encode_list_start : Act
unfolding append deeper
encode_list_start e = append b'[' (deeper e)

unfoldable pub encode_list_end : Act
unfolding append shallower strip_separator
encode_list_end e = append b']' (strip_separator (shallower e))

unfoldable pub render_group_as_outline : TextEncoder → Bool
unfolding any
render_group_as_outline e = any e.options outline_groups && ltb 0 e.depth

unfoldable pub encode_truncation_marker : Act
unfolding append
encode_truncation_marker = append b'.' and append b'.' and append b'.'

-- `array_max` is the configured maximum, 0 if there is none.
unfoldable pub rendered_list_length : ℕ → ℕ → TextEncoder → ℕ
unfolding any
rendered_list_length array_max size e =
    if ltb 0 array_max && (any e.options abbreviate_arrays && (ltb 0 e.depth && ltb array_max size))
    then array_max
    else size

-- The loop over an array: `result &= encode(value[i]) && encodeListSeparator()`, on as many elements as
-- are rendered.
unfoldable pub encode_items : ℕ → List Act → Bool → Act
unfolding encode_list_separator
encode_items zero items result e = (result, e)
encode_items (suc n) [] result e = (result, e)
encode_items (suc n) (item ∷ items) result e =
    let (ok, e') = (item and encode_list_separator) e in encode_items n items (result && ok) e'

unfoldable pub mark_truncation : Bool → Bool → Act
unfolding encode_truncation_marker encode_list_separator
mark_truncation false result e = (result, e)
mark_truncation true result e =
    let (ok, e') = (encode_truncation_marker and encode_list_separator) e in (result && ok, e')

-- ThingSetEncoder::encode(const T *, size), where `items` encode the elements.
unfoldable pub encode_array : ℕ → List Act → Act
unfolding rendered_list_length encode_list_start encode_items mark_truncation encode_list_end
encode_array array_max items e =
    let size = length items in
    let rendered = rendered_list_length array_max size e in
    let (started, e1) = encode_list_start e in
    let (ok, e2) = encode_items rendered items started e1 in
    let (good, e3) = mark_truncation (ltb rendered size) ok e2 in
    if good then encode_list_end e3 else (false, e3)

-- ThingSetEncoder::encode of a std::list, and the pairs of a map.
unfoldable pub encode_all : List Act → Act
encode_all [] e = (true, e)
encode_all (item ∷ items) e = (item and encode_all items) e

unfoldable pub encode_list : List Act → Act
unfolding encode_list_start encode_all encode_list_end
encode_list items = encode_list_start and encode_all items and encode_list_end

unfoldable pub encode_pair : Act → Act → Act
unfolding encode_key_value_pair_separator encode_list_separator
encode_pair key value = key and encode_key_value_pair_separator and value and encode_list_separator

unfoldable pub encode_entries : List (Act × Act) → Act
unfolding encode_pair
encode_entries [] e = (true, e)
encode_entries ((key, value) ∷ entries) e = (encode_pair key value and encode_entries entries) e

unfoldable pub encode_map : List (Act × Act) → Act
unfolding encode_map_start encode_entries encode_map_end
encode_map entries = encode_map_start and encode_entries entries and encode_map_end
