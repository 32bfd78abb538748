-- ===== src/Isotp/Send/Emission.antt =====
-- The frames that one message becomes (src/can/zephyr/isotp/isotp_fast.c): `send_ff` and `send_cf`.
use thingsetplusplus.Prelude.{
  ℕ, zero, suc, ◌+◌, ◌-◌, ◌/◌, ◌%◌, ◌≤◌, ◌<◌, ◌≡◌, refl, sym, ap, ◌∙◌, false, List, [], ◌∷◌, ◌++◌,
  length, take, drop, length-drop, ltb, if◌then◌else◌, arith, subst, inl, inr, Bool-cases,
}
use thingsetplusplus.Bytes.{Bytes}
use thingsetplusplus.Isotp.{CanFrame, queued, Driver, Config, SendCtx, World}
use thingsetplusplus.Isotp.Pci.{join_halves}
use thingsetplusplus.Isotp.Segments.{
  least, Documented, AlwaysSends, cut, Continues, AreConsecutive, Begins,
}
use thingsetplusplus.Isotp.Send.{
  prepare_frame, ff_header, queue_frame, send_first, count_cf, send_consecutive,
}

pub take-append_exact : (n : ℕ) (xs ys : Bytes) → length xs ≡ n → take n (xs ++ ys) ≡ xs
take-append_exact zero [] ys h = refl
take-append_exact zero (x ∷ xs) ys h = absurd (omega arith)
take-append_exact (suc n) [] ys h = absurd (omega arith)
take-append_exact (suc n) (x ∷ xs) ys h = ap (◌∷◌ x) (take-append_exact n xs ys (omega arith))

pub length-take-least : (n : ℕ) (xs : Bytes) → length (take n xs) ≡ least (length xs) n
length-take-least zero xs = ground arith
length-take-least (suc n) [] = ground arith
length-take-least (suc n) (x ∷ xs) = ground (arith, length-take-least n xs)

pub take-least : (n : ℕ) (xs : Bytes) → take (least (length xs) n) xs ≡ take n xs
take-least n xs = elim (Bool-cases (ltb (length xs) n)) [
  | inl small ↦ rw small (take_beyond (length xs) n xs (omega arith) (ground arith))
  | inr big ↦ rw big refl
]
  where
    take_beyond : (m k : ℕ) (xs : Bytes) → length xs ≤ m → length xs ≤ k → take m xs ≡ take k xs
    take_beyond zero zero xs p q = refl
    take_beyond m k [] p q = nil_both m k
      where
        nil_both : (m k : ℕ) → take m [] ≡ take {A = ℕ} k []
        nil_both zero zero = refl
        nil_both zero (suc k) = refl
        nil_both (suc m) zero = refl
        nil_both (suc m) (suc k) = refl
    take_beyond zero (suc k) (x ∷ xs) p q = absurd (omega arith)
    take_beyond (suc m) zero (x ∷ xs) p q = absurd (omega arith)
    take_beyond (suc m) (suc k) (x ∷ xs) p q =
        ap (◌∷◌ x) (take_beyond m k xs (omega arith) (omega arith))

pub drop-least : (n : ℕ) (xs : Bytes) → drop (least (length xs) n) xs ≡ drop n xs
drop-least zero xs = rw (none_before xs) refl
  where
    none_before : (xs : Bytes) → least (length xs) 0 ≡ 0
    none_before xs = ground arith
drop-least (suc n) [] = rw (nothing n) refl
  where
    nothing : (n : ℕ) → least 0 (suc n) ≡ 0
    nothing n = ground arith
drop-least (suc n) (x ∷ xs) = rw (one_more (length xs) n) (drop-least n xs)
  where
    one_more : (m n : ℕ) → least (suc m) (suc n) ≡ suc (least m n)
    one_more m n = ground arith

module _ {D : Type 0} (can : Driver D) where
  -- Like `AreConsecutive`, with what is still to come.
  abbrev pub Chain : ℕ → ℕ → Bytes → List CanFrame → ℕ → Bytes → Type 0
  Chain a k rest [] k' rest' = (k ≡ k') × (rest ≡ rest')
  Chain a k rest (f ∷ fs) k' rest' =
      (f.id ≡ a)
      × (0 < length rest)
      × Continues can k rest f
      × Chain a (suc k) (drop (cut can) rest) fs k' rest'

  pub Chain-snoc :
      (a k : ℕ) (rest : Bytes) (fs : List CanFrame) (k' : ℕ) (rest' : Bytes) (g : CanFrame)
      → Chain a k rest fs k' rest'
      → g.id ≡ a
      → 0 < length rest'
      → Continues can k' rest' g
      → Chain a k rest (fs ++ g ∷ []) (suc k') (drop (cut can) rest')
  Chain-snoc a k rest [] k' rest' g (e, e') from some_left next = (
    from,
    subst (λ (r : Bytes). 0 < length r) (sym e') some_left,
    subst (λ (i : ℕ). Continues can i rest g) (sym e)
        (subst (λ (r : Bytes). Continues can k' r g) (sym e') next),
    (ap suc e, ap (drop (cut can)) e'),
  )
  Chain-snoc a k rest (f ∷ fs) k' rest' g (from, some_left, next, chain) from' some_left' next' =
      (from, some_left, next, Chain-snoc a (suc k) _ fs k' rest' g chain from' some_left' next')

  pub Chain-AreConsecutive :
      (a k : ℕ) (rest : Bytes) (fs : List CanFrame) (k' : ℕ)
      → Chain a k rest fs k' []
      → AreConsecutive can a k rest fs
  Chain-AreConsecutive a k rest [] k' (e, e') = e'
  Chain-AreConsecutive a k rest (f ∷ fs) k' (from, some_left, next, chain) =
      (from, some_left, next, Chain-AreConsecutive a (suc k) _ fs k' chain)

module _ {D : Type 0} (can : Driver D) (config : Config) (documented : Documented can)
    (sends : AlwaysSends can) where
  queue_frame-sends :
      (f : CanFrame) (c : SendCtx) (w : World D)
      → queue_frame can config f c w ≡ (
        queued,
        record c { pending_cb = c.pending_cb + 1 },
        record w { driver = (can.can_send f w.driver).1; frames = w.frames ++ f ∷ [] },
      )
  unfolding queue_frame
  queue_frame-sends f c w = rw (sends f w.driver, queue_frame) refl

  module _ (message : Bytes) (long : can.max_dlen - 2 < length message)
      (short : length message ≤ 4095) (c : SendCtx) (w : World D) (all : c.source ≡ message)
      (counted : c.rem_len ≡ length message) where
    pub send_first-Begins :
        (f : CanFrame) × (f.id ≡ c.tx_addr)
        × Begins can message f
        × (send_first can config c w ≡ (
          queued,
          record c {
            sn = 1;
            rem_len = length (drop (can.max_dlen - 2) message);
            source = drop (can.max_dlen - 2) message;
            pending_cb = c.pending_cb + 1;
          },
          record w { driver = (can.can_send f w.driver).1; frames = w.frames ++ f ∷ [] },
        ))
    unfolding send_first prepare_frame ff_header
    send_first-Begins =
        let n = can.max_dlen - 2 in
        let len = length message in
        let f : CanFrame = record {
          id = c.tx_addr;
          fdf = config.fdf;
          dlc = can.bytes_to_dlc can.max_dlen;
          bytes = (16 + len / 256) ∷ (len % 256) ∷ (take n message ++ can.garbage);
        } in
        let small : ltb 4095 len ≡ false = ground arith in
        let size : (if ltb len (can.max_dlen - 2) then len else can.max_dlen - 2) ≡ n =
          ground arith in
        let gone : len - n ≡ length (drop n message) = omega (arith, length-drop n message) in
        (
          f,
          refl,
          record {
            coded = documented.largest;
            high = refl;
            low = refl;
            holds =
                take-append_exact n (take n message) can.garbage
                  (ground (arith, length-take-least n message));
          },
          rw (counted, all, small, join_halves 1 (len / 256) (omega arith), size, gone)
              (queue_frame-sends f _ w),
        )

  module _ (k : ℕ) (rest : Bytes) (c : SendCtx) (w : World D) (left : c.source ≡ rest)
      (counted : c.rem_len ≡ length rest) (numbered : c.sn ≡ k % 16) where
    pub send_consecutive-Continues :
        (f : CanFrame) × (f.id ≡ c.tx_addr)
        × Continues can k rest f
        × (send_consecutive can config c w ≡ (
          queued,
          count_cf can config queued (record c {
            rem_len = length (drop (cut can) rest);
            source = drop (cut can) rest;
            pending_cb = c.pending_cb + 1;
          }),
          record w { driver = (can.can_send f w.driver).1; frames = w.frames ++ f ∷ [] },
        ))
    unfolding send_consecutive prepare_frame
    send_consecutive-Continues =
        let n = least (length rest) (cut can) in
        let f : CanFrame = record {
          id = c.tx_addr;
          fdf = config.fdf;
          dlc = can.bytes_to_dlc (n + 1);
          bytes = (32 + k % 16) ∷ (take n rest ++ can.garbage);
        } in
        let gone : length rest - n ≡ length (drop (cut can) rest) =
          ground (arith, length-drop (cut can) rest) in
        let same : drop n rest ≡ drop (cut can) rest = drop-least (cut can) rest in
        (
          f,
          refl,
          record {
            marked = refl;
            room = ground (arith, documented.covers (n + 1));
            holds =
                take-append_exact n (take n rest) can.garbage
                  (ap length (take-least (cut can) rest) ∙ length-take-least (cut can) rest)
                ∙ take-least (cut can) rest;
          },
          rw (left, counted, numbered, join_halves 2 (k % 16) (omega arith), gone, same)
              (rw (queue_frame-sends f _ w) refl),
        )
