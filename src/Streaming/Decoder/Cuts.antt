-- ===== src/Streaming/Decoder/Cuts.antt =====
-- Cuts of a list of bytes, and `memmove` in include/thingset++/StreamingThingSetBinaryDecoder.hpp.
use thingsetplusplus.Prelude.{
  append_assoc, ℕ, zero, suc, ◌+◌, ◌-◌, ◌*◌, ◌≤◌, ◌<◌, ◌≡◌, refl, sym, ap, ◌∙◌, [], ◌∷◌, ◌++◌,
  length, length-append, take, drop, take-append-drop, length-take, length-drop, arith,
}
use thingsetplusplus.Bytes.{Bytes}
use thingsetplusplus.Streaming.Decoder.{move_down}
use thingsetplusplus.Streaming.Decoder.Fill.{take-append, drop-append, take_exact}

drop_nil : (n : ℕ) → drop {A = ℕ} n [] ≡ []
drop_nil zero = refl
drop_nil (suc n) = refl

take_nil : (n : ℕ) → take {A = ℕ} n [] ≡ []
take_nil zero = refl
take_nil (suc n) = refl

pub drop-drop : (n m : ℕ) (xs : Bytes) → drop m (drop n xs) ≡ drop (n + m) xs
drop-drop zero m xs = ap {A = ℕ} (λ k. drop k xs) (omega arith)
drop-drop (suc n) m [] = drop_nil m ∙ sym (drop_nil (suc n + m))
drop-drop (suc n) m (x ∷ xs) =
    let e : suc (n + m) ≡ suc n + m = omega arith in
    drop-drop n m xs ∙ ap {A = ℕ} (λ k. drop k (x ∷ xs)) e

drop-take : (n m : ℕ) (xs : Bytes) → drop n (take (n + m) xs) ≡ take m (drop n xs)
drop-take zero m xs = ap {A = ℕ} (λ k. take k xs) (omega arith)
drop-take (suc n) m [] = rw (take_nil (suc n + m), take_nil m) refl
drop-take (suc n) m (x ∷ xs) =
    let e : suc n + m ≡ suc (n + m) = omega arith in
    ap {A = ℕ} (λ k. drop (suc n) (take k (x ∷ xs))) e ∙ drop-take n m xs

drop_exact : (us vs : Bytes) → drop (length us) (us ++ vs) ≡ vs
drop_exact [] vs = refl
drop_exact (u ∷ us) vs = drop_exact us vs

take-take : (k n : ℕ) (xs : Bytes) → k ≤ n → take k (take n xs) ≡ take k xs
take-take zero n xs h = refl
take-take (suc k) zero xs h = ground arith
take-take (suc k) (suc n) [] h = refl
take-take (suc k) (suc n) (x ∷ xs) h = ap (◌∷◌ x) (take-take k n xs (omega arith))

-- What comes first of two ways to cut the same bytes.
pub cut_first :
    (xs ys us vs : Bytes)
    → xs ++ ys ≡ us ++ vs
    → length us ≤ length xs
    → (xs ≡ us ++ drop (length us) xs) × (drop (length us) xs ++ ys ≡ vs)
cut_first xs ys us vs e h =
    let start : take (length us) xs ≡ us =
      sym (take-append (length us) xs ys h)
      ∙ ap (take (length us)) e
      ∙ take_exact (length us) us vs refl in
    let end_ : drop (length us) xs ++ ys ≡ vs =
      sym (drop-append (length us) xs ys h) ∙ ap (drop (length us)) e ∙ drop_exact us vs in
    (sym (take-append-drop (length us) xs) ∙ ap (◌++ drop (length us) xs) start, end_)

-- What lies behind the index `pos`, up to `filled` and further on.
pub behind-splits :
    (pos filled : ℕ) (b beyond first : Bytes)
    → pos ≤ filled
    → filled ≤ length b
    → let window = drop pos (take filled b) in
      window ≡ first ++ drop (length first) window
      → drop pos b ++ beyond ≡ first ++ (drop (length first) window ++ (drop filled b ++ beyond))
behind-splits pos filled b beyond first h within starts =
    let window = drop pos (take filled b) in
    let behind = drop filled b ++ beyond in
    ap (◌++ beyond) (
      ap (drop pos) (sym (take-append-drop filled b))
      ∙ drop-append pos (take filled b) (drop filled b) (omega (arith, length-take filled b)))
    ∙ append_assoc window (drop filled b) beyond
    ∙ ap (◌++ behind) starts
    ∙ append_assoc first (drop (length first) window) behind

pub length-window :
    (pos filled : ℕ) (b : Bytes)
    → filled ≤ length b
    → length (drop pos (take filled b)) ≡ filled - pos
length-window pos filled b within =
    omega (arith, length-drop pos (take filled b), length-take filled b)

module _ (size : ℕ) where
  pub length-move_down : (b : Bytes) → length b ≡ size * 2 → length (move_down size b) ≡ size * 2
  unfolding move_down
  length-move_down b e = omega (
    arith,
    length-append (take size (drop size b)) (drop size b),
    length-take size (drop size b),
    length-drop size b,
  )

  -- The half that is read moves to the start.
  take-move_down :
      (b : Bytes) (k : ℕ)
      → length b ≡ size * 2
      → k ≤ size
      → take k (move_down size b) ≡ drop size (take (size + k) b)
  unfolding move_down
  take-move_down b k e h =
      let upper = drop size b in
      let long : k ≤ length (take size upper) =
        omega (arith, length-take size upper, length-drop size b) in
      take-append k (take size upper) upper long
      ∙ take-take k size upper h
      ∙ sym (drop-take size k b)

  pub moved :
      (b : Bytes) (pos filled : ℕ)
      → length b ≡ size * 2
      → size < pos
      → pos ≤ filled
      → filled ≤ size * 2
      → drop (pos - size) (take (filled - size) (move_down size b)) ≡ drop pos (take filled b)
  moved b pos filled e above behind within =
      ap (drop (pos - size)) (take-move_down b (filled - size) e (omega arith))
      ∙ drop-drop size (pos - size) (take (size + (filled - size)) b)
      ∙ ap {A = ℕ} (λ n. drop n (take (size + (filled - size)) b)) (omega arith)
      ∙ ap {A = ℕ} (λ n. drop pos (take n b)) (omega arith)
