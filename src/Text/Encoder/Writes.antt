-- ===== src/Text/Encoder/Writes.antt =====
-- What src/ThingSetTextEncoder.cpp writes where the buffer has room: arrays and maps are their elements
-- between brackets, with a comma between any two.
use thingsetplusplus.Prelude.{
  ℕ, suc, ◌+◌, ◌-◌, ◌%◌, ◌≤◌, ◌<◌, ◌≡◌, refl, sym, ap, ◌∙◌, true, false, List, [], ◌∷◌, ◌++◌, ◌==◌,
  ltb, leb, length, length-append, arith,
}
use thingsetplusplus.Bytes.{Bytes}
use thingsetplusplus.Text.Encoder.{
  TextEncoder, Act, ◌and◌, position, onto, append, printed, append_format, encode_list_separator,
  encode_key_value_pair_separator, deeper, shallower, strip, strip_separator, encode_map_start,
  encode_map_end, encode_list_start, encode_list_end, rendered_list_length, encode_items,
  mark_truncation, encode_array, encode_pair, encode_entries, encode_map, any, abbreviate_arrays,
}

-- A call that writes a text where there is room for it and one byte more, outside abbreviated
-- arrays, and leaves all else as it was.
pub record Writes (act : Act) (text : Bytes) : Type 0 where
  pub writes :
      (e : TextEncoder)
      → position e + length text < e.response_size
      → e.depth < 256
      → any e.options abbreviate_arrays ≡ false
      → act e ≡ (true, record e { written = onto text e.written })

pub length-onto : (text w : Bytes) → length (onto text w) ≡ length text + length w
unfolding onto
length-onto [] w = omega arith
length-onto (c ∷ cs) w = length-onto cs (c ∷ w) ∙ ground arith

pub onto-append : (xs ys w : Bytes) → onto (xs ++ ys) w ≡ onto ys (onto xs w)
unfolding onto
onto-append [] ys w = refl
onto-append (x ∷ xs) ys w = onto-append xs ys (x ∷ w)

pub append-Writes : (c : ℕ) → Writes (append c) (c ∷ [])
unfolding append onto
append-Writes c = record { writes = λ e room d o. ground arith }

-- A text that fits with its terminator is printed whole.
pub printed_fits : (text : Bytes) (room : ℕ) → length text < room → printed text room ≡ text
unfolding printed
printed_fits [] room h = refl
printed_fits (c ∷ []) room h = ground arith
printed_fits (c ∷ d ∷ cs) room h = ap (◌∷◌ c) (printed_fits (d ∷ cs) (room - 1) (omega arith))

pub append_format-Writes : (text : Bytes) → Writes (append_format text) text
unfolding append_format
append_format-Writes text = record {
  writes = λ e room d o.
      rw (printed_fits text (e.response_size - position e) (omega arith)) (ground arith);
}

pub and-Writes : (a b : Act) (s t : Bytes) → Writes a s → Writes b t → Writes (a and b) (s ++ t)
and-Writes a b s t first next = record {
  writes = λ e room d o.
      let here = first.writes e (omega (arith, length-append s t)) d o in
      let there =
        next.writes (record e { written = onto s e.written })
          (omega (arith, length-append s t, length-onto s e.written)) d o in
      rw (here, there, onto-append s t e.written) refl;
}

-- The elements, each with a comma behind it; and with a comma between any two.
unfoldable pub terminated : List Bytes → Bytes
terminated [] = []
terminated (t ∷ ts) = t ++ b',' ∷ terminated ts

unfoldable pub separated : List Bytes → Bytes
separated [] = []
separated (t ∷ []) = t
separated (t ∷ u ∷ us) = t ++ b',' ∷ separated (u ∷ us)

-- Calls and what they write, one by one.
abbrev pub Each : List Act → List Bytes → Type 0
Each [] [] = Unit {0}
Each (a ∷ acts) (t ∷ ts) = Writes a t × Each acts ts
Each _ _ = ⊥

terminated-onto :
    (t : Bytes) (ts : List Bytes) (w : Bytes)
    → onto (terminated (t ∷ ts)) w ≡ b',' ∷ onto (separated (t ∷ ts)) w
unfolding onto terminated separated
terminated-onto t [] w = onto-append t (b',' ∷ []) w
terminated-onto t (u ∷ us) w =
    rw (onto-append t (b',' ∷ terminated (u ∷ us)) w, onto-append t (b',' ∷ separated (u ∷ us)) w)
      (terminated-onto u us (b',' ∷ onto t w))

-- The separator behind the last element is taken off, and an opening bracket is not.
pub strip-terminated :
    (c : ℕ) (ts : List Bytes) (w : Bytes)
    → (c == b',') ≡ false
    → strip (onto (terminated ts) (c ∷ w)) ≡ onto (separated ts) (c ∷ w)
unfolding strip onto terminated separated
strip-terminated c [] w h = rw h refl
strip-terminated c (t ∷ ts) w h = rw (terminated-onto t ts (c ∷ w)) refl

pub separator-Writes : Writes encode_list_separator (b',' ∷ [])
unfolding encode_list_separator
separator-Writes = append-Writes b','

abbrev pub extended : TextEncoder → Bytes → TextEncoder
extended e text = record e { written = onto text e.written }

encode_items_step :
    (n : ℕ) (item : Act) (items : List Act) (e e' : TextEncoder)
    → (item and encode_list_separator) e ≡ (true, e')
    → encode_items (suc n) (item ∷ items) true e ≡ encode_items n items true e'
unfolding encode_items
encode_items_step n item items e e' h = rw h refl

pub encode_items-Each :
    (items : List Act) (ts : List Bytes) (e : TextEncoder)
    → Each items ts
    → position e + length (terminated ts) < e.response_size
    → e.depth < 256
    → any e.options abbreviate_arrays ≡ false
    → encode_items (length items) items true e ≡ (true, extended e (terminated ts))
unfolding encode_items terminated onto
encode_items-Each [] [] e each room d o = refl
encode_items-Each [] (t ∷ ts) e each room d o = absurd each
encode_items-Each (a ∷ acts) [] e each room d o = absurd each
encode_items-Each (a ∷ acts) (t ∷ ts) e each room d o =
    let len = length-append t (b',' ∷ terminated ts) in
    let len' = length-append t (b',' ∷ []) in
    let one =
      (and-Writes a encode_list_separator t (b',' ∷ []) each.0 separator-Writes).writes e
        (omega arith) d o in
    let rest =
      encode_items-Each acts ts (extended e (t ++ b',' ∷ [])) each.1
        (omega (arith, length-onto (t ++ b',' ∷ []) e.written)) d o in
    encode_items_step (length acts) a acts e _ one
    ∙ rest
    ∙ ap (λ w. (true, record e { written = w }))
        (ap (onto (terminated ts)) (onto-append t (b',' ∷ []) e.written)
          ∙ sym (onto-append t (b',' ∷ terminated ts) e.written))

-- Opening and closing brackets around what was written between them.
bracket : ℕ → ℕ → List Bytes → Bytes
bracket opening closing ts = opening ∷ separated ts ++ closing ∷ []

abbrev AllRendered : ℕ → ℕ → TextEncoder → Type 0
AllRendered array_max size e = rendered_list_length array_max size e ≡ size

render-all :
    (array_max size : ℕ) (e : TextEncoder)
    → any e.options abbreviate_arrays ≡ false
    → AllRendered array_max size e
unfolding rendered_list_length
render-all array_max size e o = ground arith

length-terminated : (ts : List Bytes) → length (terminated ts) ≤ length (separated ts) + 1
unfolding terminated separated
length-terminated [] = omega arith
length-terminated (t ∷ []) = omega (arith, length-append t (b',' ∷ []))
length-terminated (t ∷ u ∷ us) = omega (
  arith,
  length-append t (b',' ∷ terminated (u ∷ us)),
  length-append t (b',' ∷ separated (u ∷ us)),
  length-terminated (u ∷ us),
)

-- The array is closed: the last separator goes, the depth is as before.
list_end-closes :
    (ts : List Bytes) (e : TextEncoder)
    → position e + length (separated ts) + 2 < e.response_size
    → e.depth < 256
    → encode_list_end (record e {
      written = onto (terminated ts) (b'[' ∷ e.written);
      depth = (e.depth + 1) % 256;
    })
      ≡ (true, record e { written = b']' ∷ onto (separated ts) (b'[' ∷ e.written) })
unfolding encode_list_end append shallower strip_separator
list_end-closes ts e room d =
    let depth : ((e.depth + 1) % 256 + 255) % 256 ≡ e.depth = omega arith in
    rw (strip-terminated b'[' ts e.written refl, depth)
      (ground (arith, length-onto (separated ts) (b'[' ∷ e.written)))

map_end-closes :
    (ts : List Bytes) (e : TextEncoder)
    → position e + length (separated ts) + 2 < e.response_size
    → e.depth < 256
    → encode_map_end (record e {
      written = onto (terminated ts) (b'{' ∷ e.written);
      depth = (e.depth + 1) % 256;
    })
      ≡ (true, record e { written = b'}' ∷ onto (separated ts) (b'{' ∷ e.written) })
unfolding encode_map_end append shallower strip_separator
map_end-closes ts e room d =
    let depth : ((e.depth + 1) % 256 + 255) % 256 ≡ e.depth = omega arith in
    rw (strip-terminated b'{' ts e.written refl, depth)
      (ground (arith, length-onto (separated ts) (b'{' ∷ e.written)))

length-bracket :
    (opening closing : ℕ) (ts : List Bytes)
    → length (bracket opening closing ts) ≡ length (separated ts) + 2
unfolding bracket
length-bracket opening closing ts = omega (arith, length-append (separated ts) (closing ∷ []))

-- If each element writes its text, then an array writes these texts between square brackets, with a
-- comma between any two; whether arrays are cut short is configured, and this encoder does not ask for it.
pub encode_array-Writes :
    (array_max : ℕ) (items : List Act) (ts : List Bytes)
    → Each items ts
    → Writes (encode_array array_max items) (b'[' ∷ separated ts ++ b']' ∷ [])
unfolding encode_array encode_list_start append deeper mark_truncation bracket onto
encode_array-Writes array_max items ts each = record {
  writes = λ e room d o.
      let len = length-bracket b'[' b']' ts in
      let inner = record e { written = b'[' ∷ e.written; depth = (e.depth + 1) % 256 } in
      let start : leb e.response_size (position e) ≡ false = ground arith in
      let size : ltb (length items) (length items) ≡ false = ground arith in
      let body =
        encode_items-Each items ts inner each (omega (arith, length-terminated ts)) (omega arith)
          o in
      rw
        (
          render-all array_max (length items) e o,
          start,
          body,
          size,
          list_end-closes ts e (omega arith) d,
          onto-append (separated ts) (b']' ∷ []) (b'[' ∷ e.written),
        )
        refl;
}

-- The text of a pair, and pairs of calls with what they write.
abbrev pub pair_text : Bytes × Bytes → Bytes
pair_text (k, v) = k ++ b':' ∷ v

abbrev pub pair_texts : List (Bytes × Bytes) → List Bytes
pair_texts [] = []
pair_texts (p ∷ ps) = pair_text p ∷ pair_texts ps

abbrev pub EachPair : List (Act × Act) → List (Bytes × Bytes) → Type 0
EachPair [] [] = Unit {0}
EachPair ((k, v) ∷ es) ((s, t) ∷ ps) = Writes k s × Writes v t × EachPair es ps
EachPair _ _ = ⊥

pair-Writes :
    (k v : Act) (s t : Bytes)
    → Writes k s
    → Writes v t
    → Writes (encode_pair k v) (s ++ b':' ∷ (t ++ b',' ∷ []))
unfolding encode_pair encode_key_value_pair_separator
pair-Writes k v s t ks vt = and-Writes k _ s _ ks (
    and-Writes _ _ (b':' ∷ []) _ (append-Writes b':')
      (and-Writes v _ t (b',' ∷ []) vt separator-Writes))

pair-onto :
    (s t rest w : Bytes)
    → onto rest (onto (s ++ b':' ∷ (t ++ b',' ∷ [])) w) ≡ onto ((s ++ b':' ∷ t) ++ b',' ∷ rest) w
unfolding onto
pair-onto s t rest w =
    rw
      (
        onto-append s (b':' ∷ (t ++ b',' ∷ [])) w,
        onto-append t (b',' ∷ []) (b':' ∷ onto s w),
        onto-append (s ++ b':' ∷ t) (b',' ∷ rest) w,
        onto-append s (b':' ∷ t) w,
      )
      refl

length-pair :
    (s t rest : Bytes)
    → length (s ++ b':' ∷ (t ++ b',' ∷ [])) + length rest ≡ length ((s ++ b':' ∷ t) ++ b',' ∷ rest)
length-pair s t rest = omega (
  arith,
  length-append s (b':' ∷ (t ++ b',' ∷ [])),
  length-append t (b',' ∷ []),
  length-append (s ++ b':' ∷ t) (b',' ∷ rest),
  length-append s (b':' ∷ t),
)

encode_entries-EachPair :
    (es : List (Act × Act)) (ps : List (Bytes × Bytes)) (e : TextEncoder)
    → EachPair es ps
    → position e + length (terminated (pair_texts ps)) < e.response_size
    → e.depth < 256
    → any e.options abbreviate_arrays ≡ false
    → encode_entries es e ≡ (true, extended e (terminated (pair_texts ps)))
unfolding encode_entries terminated onto
encode_entries-EachPair [] [] e each room d o = refl
encode_entries-EachPair [] (p ∷ ps) e each room d o = absurd each
encode_entries-EachPair ((k, v) ∷ es) [] e each room d o = absurd each
encode_entries-EachPair ((k, v) ∷ es) ((s, t) ∷ ps) e each room d o =
    let text = s ++ b':' ∷ (t ++ b',' ∷ []) in
    let len = length-pair s t (terminated (pair_texts ps)) in
    let one = (pair-Writes k v s t each.0 each.1).writes e (omega arith) d o in
    let rest =
      encode_entries-EachPair es ps (extended e text) each.2
        (omega (arith, length-onto text e.written)) d o in
    rw (one, rest, pair-onto s t (terminated (pair_texts ps)) e.written) refl

-- If each key and each value writes its text, then a map writes, between curly brackets, the pairs, the
-- key and the value with a colon between them, with a comma between any two pairs.
pub encode_map-Writes :
    (es : List (Act × Act)) (ps : List (Bytes × Bytes))
    → EachPair es ps
    → Writes (encode_map es) (b'{' ∷ separated (pair_texts ps) ++ b'}' ∷ [])
unfolding encode_map encode_map_start append deeper bracket onto
encode_map-Writes es ps each = record {
  writes = λ e room d o.
      let ts = pair_texts ps in
      let len = length-bracket b'{' b'}' ts in
      let inner = record e { written = b'{' ∷ e.written; depth = (e.depth + 1) % 256 } in
      let start : leb e.response_size (position e) ≡ false = ground arith in
      let body =
        encode_entries-EachPair es ps inner each (omega (arith, length-terminated ts)) (omega arith)
          o in
      rw
        (
          start,
          body,
          map_end-closes ts e (omega arith) d,
          onto-append (separated ts) (b'}' ∷ []) (b'{' ∷ e.written),
        )
        refl;
}
