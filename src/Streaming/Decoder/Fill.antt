-- ===== src/Streaming/Decoder/Fill.antt =====
-- `read` of include/thingset++/StreamingQueuingThingSetBinaryDecoder.hpp: what it takes from the queue into the buffer.
use thingsetplusplus.Prelude.{
  append_assoc, ℕ, zero, suc, ◌+◌, ◌*◌, ◌≤◌, ◌≡◌, refl, sym, ap, ◌∙◌, ◌⊎◌, inl, inr, true, false,
  ◌&&◌, List, [], ◌∷◌, ◌++◌, leb, length, length-append, take, drop, length-take, length-drop,
  arith, Bool-cases,
}
use thingsetplusplus.Bytes.{Bytes}
use thingsetplusplus.Streaming.Decoder.{copy_to, fill}

pub take-append {ℓ} :
    {A : Type ℓ} (n : ℕ) (xs ys : List A) → n ≤ length xs → take n (xs ++ ys) ≡ take n xs
take-append zero xs ys h = refl
take-append (suc n) [] ys h = ground arith
take-append (suc n) (x ∷ xs) ys h = ap (◌∷◌ x) (take-append n xs ys (omega arith))

pub drop-append {ℓ} :
    {A : Type ℓ} (n : ℕ) (xs ys : List A) → n ≤ length xs → drop n (xs ++ ys) ≡ drop n xs ++ ys
drop-append zero xs ys h = refl
drop-append (suc n) [] ys h = ground arith
drop-append (suc n) (x ∷ xs) ys h = drop-append n xs ys (omega arith)

take_all {ℓ} : {A : Type ℓ} (xs : List A) → take (length xs) xs ≡ xs
take_all [] = refl
take_all (x ∷ xs) = ap (◌∷◌ x) (take_all xs)

pub take_exact {ℓ} : {A : Type ℓ} (n : ℕ) (xs ys : List A) → length xs ≡ n → take n (xs ++ ys) ≡ xs
take_exact n xs ys e =
    take-append n xs ys (omega arith) ∙ ap {A = ℕ} (λ k. take k xs) (sym e) ∙ take_all xs

pub length-copy_to :
    (pos : ℕ) (b buffer : Bytes)
    → pos + length b ≤ length buffer
    → length (copy_to pos b buffer) ≡ length buffer
unfolding copy_to
length-copy_to pos b buffer fits = omega (
  arith,
  length-append (take pos buffer ++ b) (drop (pos + length b) buffer),
  length-append (take pos buffer) b,
  length-take pos buffer,
  length-drop (pos + length b) buffer,
)

take-copy_to :
    (pos : ℕ) (b buffer : Bytes)
    → pos + length b ≤ length buffer
    → take (pos + length b) (copy_to pos b buffer) ≡ take pos buffer ++ b
unfolding copy_to
take-copy_to pos b buffer fits =
    let before = take pos buffer in
    let behind = drop (pos + length b) buffer in
    take_exact (pos + length b) (before ++ b) behind
      (omega (arith, length-append before b, length-take pos buffer))

module _ {M : Type 0} (get_buffer : M → Bytes) (size : ℕ) where
  -- What the messages hold together.
  unfoldable pub waiting : List M → Bytes
  waiting [] = []
  waiting (m ∷ ms) = get_buffer m ++ waiting ms

  -- All messages but the last are full.
  abbrev pub FullButLast : List M → Type 0
  FullButLast [] = Unit {0}
  FullButLast (m ∷ []) = length (get_buffer m) ≤ size
  FullButLast (m ∷ n ∷ ms) = (length (get_buffer m) ≡ size) × FullButLast (n ∷ ms)

  -- Where messages remain, the next one is copied to the start of one half, or the buffer is full.
  abbrev pub AtHalf : ℕ → List M → Type 0
  AtHalf pos [] = Unit {0}
  AtHalf pos (m ∷ ms) = (pos ≡ 0) ⊎ (pos ≡ size) ⊎ (pos ≡ size * 2)

  abbrev pub IsFull : ℕ → List M → Type 0
  IsFull pos [] = Unit {0}
  IsFull pos (m ∷ ms) = pos ≡ size * 2

  pub record Filled (all : Bytes) (from pos : ℕ) (queue : List M) (buffer : Bytes) : Type 0 where
    pub together : take pos buffer ++ waiting queue ≡ all
    pub capacity : length buffer ≡ size * 2
    pub onwards : from ≤ pos
    pub within : pos ≤ size * 2
    pub queued : FullButLast queue
    pub full : IsFull pos queue

  pub first-le : (m : M) (ms : List M) → FullButLast (m ∷ ms) → length (get_buffer m) ≤ size
  first-le m [] h = h
  first-le m (n ∷ ms) h = omega (arith, h.0)

  pub others-FullButLast : (m : M) (ms : List M) → FullButLast (m ∷ ms) → FullButLast ms
  others-FullButLast m [] h = tt
  others-FullButLast m (n ∷ ms) h = h.1

  pub next-AtHalf :
      (m : M) (ms : List M) (pos : ℕ)
      → FullButLast (m ∷ ms)
      → (pos ≡ 0) ⊎ (pos ≡ size) ⊎ (pos ≡ size * 2)
      → pos + length (get_buffer m) ≤ size * 2
      → AtHalf (pos + length (get_buffer m)) ms
  next-AtHalf m [] pos h at fits = tt
  next-AtHalf m (n ∷ ms) pos h (inl e) fits = inr (inl (omega (arith, h.0)))
  next-AtHalf m (n ∷ ms) pos h (inr (inl e)) fits = inr (inr (omega (arith, h.0)))
  next-AtHalf m (n ∷ ms) pos h (inr (inr e)) fits = inr (inr (omega (arith, h.0)))

  is_full :
      (k pos : ℕ)
      → k ≤ size
      → (pos ≡ 0) ⊎ (pos ≡ size) ⊎ (pos ≡ size * 2)
      → (leb pos (size * 2) && leb (pos + k) (size * 2)) ≡ false
      → pos ≡ size * 2
  is_full k pos short at stops = ground arith

  fits-le :
      (k pos : ℕ) → (leb pos (size * 2) && leb (pos + k) (size * 2)) ≡ true → pos + k ≤ size * 2
  fits-le k pos goes = ground arith

  pub fill-Filled :
      (queue : List M) (pos : ℕ) (buffer : Bytes)
      → length buffer ≡ size * 2
      → pos ≤ size * 2
      → FullButLast queue
      → AtHalf pos queue
      → let (n, ms, b) = fill get_buffer pos (size * 2) queue buffer in
        Filled (take pos buffer ++ waiting queue) pos n ms b
  unfolding fill waiting
  fill-Filled [] pos buffer capacity within h at = record {
    together = refl;
    capacity = capacity;
    onwards = omega arith;
    within = within;
    queued = tt;
    full = tt;
  }
  fill-Filled (m ∷ ms) pos buffer capacity within h at =
      let b = get_buffer m in
      elim (Bool-cases (leb pos (size * 2) && leb (pos + length b) (size * 2))) [
        | inr stops ↦ rw (stops) (record {
          together = refl;
          capacity = capacity;
          onwards = omega arith;
          within = within;
          queued = h;
          full = is_full (length b) pos (first-le m ms h) at stops;
        })
        | inl goes ↦
            let fits = fits-le (length b) pos goes in
            let room : pos + length b ≤ length buffer = omega arith in
            let rest =
              fill-Filled ms (pos + length b) (copy_to pos b buffer)
                (length-copy_to pos b buffer room ∙ capacity) fits (others-FullButLast m ms h)
                (next-AtHalf m ms pos h at fits) in
            let same =
              ap (◌++ waiting ms) (take-copy_to pos b buffer room)
              ∙ append_assoc (take pos buffer) b (waiting ms) in
            rw (goes) (record {
              together = rest.together ∙ same;
              capacity = rest.capacity;
              onwards = omega (arith, rest.onwards);
              within = rest.within;
              queued = rest.queued;
              full = rest.full;
            })
      ]
