-- ===== src/Streaming/Frames.antt =====
-- The frames of a report (src/can/StreamingCanThingSetBinaryEncoder.cpp): what they are together.
use thingsetplusplus.Prelude.{
  append_assoc, ℕ, zero, suc, ◌+◌, ◌-◌, ◌*◌, ◌%◌, ◌≤◌, ◌<◌, ◌≡◌, refl, sym, ap, ◌∙◌, inl, inr, Bool,
  true, false, List, [], ◌∷◌, ◌++◌, ◌==◌, ltb, if◌then◌else◌, length, length-append, take, drop,
  take-append-drop, length-take, length-drop, arith, Bool-cases,
}
use thingsetplusplus.Bytes.{Bytes}
use thingsetplusplus.Can.Id.{CanId, first, consecutive, last, single}
use thingsetplusplus.Streaming.{
  Zcbor, Stream, write_if_necessary, put_item, encode, write_rest, flush, Frame, Transport,
  frame_id, send, frame_type, write,
}

-- What the frames hold together, the last one first in the list.
unfoldable pub sent : List Frame → Bytes
sent [] = []
sent (f ∷ fs) = sent fs ++ f.payload

-- Full frames: the first one and consecutive ones, numbered from 0, each of `size` bytes.
abbrev pub Full : ℕ → List Frame → Type 0
Full size [] = Unit {0}
Full size (f ∷ fs) =
    (f.id ≡ frame_id (if length fs == 0 then first else consecutive) (length fs % 256))
    × (length f.payload ≡ size)
    × Full size fs

-- The documented behaviour of zcbor: a state's pointer moves on by what was written, which is no more than may be
-- written; the pointer and the room are what they are set to; and what is written is the item's encoding.
pub record Advances {Z Item : Type 0} (zcbor : Zcbor Z Item) (encoding : Item → Bytes)
    : Type 0 where
  pub put_advances :
      (item : Item) (z : Z)
      → zcbor.position (zcbor.put item z).2 ≡ zcbor.position z + length (zcbor.put item z).1
  pub put_within : (item : Item) (z : Z) → length (zcbor.put item z).1 ≤ zcbor.room z
  pub put_takes :
      (item : Item) (z : Z)
      → zcbor.room (zcbor.put item z).2 ≡ zcbor.room z - length (zcbor.put item z).1
  pub put_encodes :
      (item : Item) (z : Z) → (zcbor.put item z).0 ≡ true → (zcbor.put item z).1 ≡ encoding item
  pub updates :
      (p n : ℕ) (z : Z)
      → (zcbor.position (zcbor.update_state p n z) ≡ p)
        × (zcbor.room (zcbor.update_state p n z) ≡ n)
  pub news :
      (p n count : ℕ)
      → (zcbor.position (zcbor.new_state p n count) ≡ p)
        × (zcbor.room (zcbor.new_state p n count) ≡ n)

-- A report of which the bytes `all` have been encoded: the frames and the buffer hold them.
pub record Holds {Z Item : Type 0} (zcbor : Zcbor Z Item) (size : ℕ) (s : Stream Z Transport)
    (all : Bytes) : Type 0 where
  pub bytes : sent s.transport.frames ++ s.buffer ≡ all
  pub here : zcbor.position s.state ≡ length s.buffer
  pub full : Full size s.transport.frames
  pub exported : s.exported_length ≡ length s.transport.frames * size
  pub fits : zcbor.position s.state + zcbor.room s.state ≤ size * 2
  pub numbered : s.transport.sequence_number ≡ length s.transport.frames % 256

-- Full frames and the last one, which is no longer than they are, hold the bytes `all` together.
pub record Complete (size : ℕ) (frames : List Frame) (all : Bytes) : Type 0 where
  pub before : List Frame
  pub last_frame : Frame
  pub are : frames ≡ last_frame ∷ before
  pub together : sent frames ≡ all
  pub full : Full size before
  pub ends :
      last_frame.id ≡ frame_id (if length before == 0 then single else last) (length before % 256)
  pub short : length last_frame.payload ≤ size

module _ {Z Item : Type 0} (zcbor : Zcbor Z Item) (size : ℕ) (filled : 0 < size)
    (encoding : Item → Bytes) (advances : Advances zcbor encoding) (publish : CanId → Bytes → Bool)
    (published : (id : CanId) (b : Bytes) → publish id b ≡ true) where
  is_first : (n : ℕ) → (n * size == 0) ≡ (n == 0)
  is_first zero = ground arith
  is_first (suc n) = ground arith

  minus_zero : size - 0 ≡ size
  minus_zero = omega arith

  pub write_if_necessary-Holds :
      (s : Stream Z Transport) (all : Bytes)
      → Holds zcbor size s all
      → (t : Stream Z Transport) × (write_if_necessary zcbor size 0 (write publish) s ≡ (true, t))
        × Holds zcbor size t all
        × (zcbor.position t.state ≡ (
            if ltb size (zcbor.position s.state)
            then zcbor.position s.state - size
            else zcbor.position s.state))
  unfolding write_if_necessary write send frame_type sent
  write_if_necessary-Holds s all h = elim (Bool-cases (ltb size (zcbor.position s.state))) [
    | inr small ↦ rw (minus_zero, small) (s, refl, h, refl)
    | inl big ↦
        let first_one = is_first (length s.transport.frames) in
        let id : frame_id (frame_type false s.exported_length) s.transport.sequence_number
            ≡ frame_id (if length s.transport.frames == 0 then first else consecutive)
                (length s.transport.frames % 256) =
          rw (h.exported, h.numbered, first_one) refl in
        rw (minus_zero, big, published)
          (
            _,
            refl,
            record {
              bytes =
                  append_assoc (sent s.transport.frames) (take size s.buffer) (drop size s.buffer)
                  ∙ ap (sent s.transport.frames ++◌) (take-append-drop size s.buffer)
                  ∙ h.bytes;
              here =
                  (advances.updates _ _ s.state).0
                  ∙ omega (arith, h.here, length-drop size s.buffer);
              full = (id, ground (arith, h.here, length-take size s.buffer), h.full);
              exported = ground (arith, h.exported);
              fits =
                  let new_pos = zcbor.position s.state - size in
                  let (p, n) = advances.updates new_pos (size * 2 - new_pos) s.state in
                  let within : zcbor.position s.state ≤ size * 2 = omega (arith, h.fits) in
                  omega (arith, p, n, within);
              numbered = omega (arith, h.numbered);
            },
            (advances.updates _ _ s.state).0,
          )
  ]

  put_item-Holds :
      (item : Item) (s : Stream Z Transport) (all : Bytes)
      → Holds zcbor size s all
      → (put_item {T = Transport} zcbor size 0 (write publish) item s).0 ≡ true
      → Holds zcbor size (put_item zcbor size 0 (write publish) item s).1 (all ++ encoding item)
  unfolding put_item
  put_item-Holds item s all h ok =
      let bytes = advances.put_encodes item s.state ok in
      record {
        bytes =
            sym (append_assoc (sent s.transport.frames) s.buffer (zcbor.put item s.state).1)
            ∙ ap (◌++ (zcbor.put item s.state).1) h.bytes
            ∙ ap (all ++◌) bytes;
        here = omega (
          arith,
          advances.put_advances item s.state,
          h.here,
          length-append s.buffer (zcbor.put item s.state).1,
        );
        full = h.full;
        exported = h.exported;
        fits = omega (
          arith,
          advances.put_advances item s.state,
          advances.put_within item s.state,
          advances.put_takes item s.state,
          h.fits,
        );
        numbered = h.numbered;
      }

  pub encode-Holds :
      (item : Item) (s : Stream Z Transport) (all : Bytes)
      → Holds zcbor size s all
      → (encode zcbor size 0 (write publish) item s).0 ≡ true
      → Holds zcbor size (encode zcbor size 0 (write publish) item s).1 (all ++ encoding item)
  unfolding encode
  encode-Holds item s all h ok =
      let (t, e, after, pos) = write_if_necessary-Holds s all h in
      rw (e) (put_item-Holds item t all after (rw e at ok))

  take_all : {A : Type 0} (xs : List A) → take (length xs) xs ≡ xs
  take_all [] = refl
  take_all (x ∷ xs) = ap (◌∷◌ x) (take_all xs)

  write_rest-Complete :
      (s : Stream Z Transport) (all : Bytes)
      → Holds zcbor size s all
      → zcbor.position s.state ≤ size
      → (t : Stream Z Transport) × (write_rest {Item = Item} zcbor size 0 (write publish) s
          ≡ (true, t))
        × Complete size t.transport.frames all
  unfolding write_rest write send frame_type sent
  write_rest-Complete s all h short =
      let fs = s.transport.frames in
      let kind = is_first (length fs) in
      let id : frame_id (frame_type true s.exported_length) s.transport.sequence_number
          ≡ frame_id (if length fs == 0 then single else last) (length fs % 256) =
        rw (h.exported, h.numbered, kind) refl in
      rw (published, h.here, take_all s.buffer)
        (
          _,
          refl,
          record {
            before = fs;
            last_frame = _;
            are = refl;
            together = h.bytes;
            full = h.full;
            ends = id;
            short = omega (arith, h.here);
          },
        )

  pub flush-Complete :
      (s : Stream Z Transport) (all : Bytes)
      → Holds zcbor size s all
      → (t : Stream Z Transport) × (flush zcbor size 0 (write publish) s ≡ (true, t))
        × Complete size t.transport.frames all
  unfolding flush
  flush-Complete s all h = elim (Bool-cases (ltb size (zcbor.position s.state))) [
    | inr small ↦ rw (minus_zero, small) (write_rest-Complete s all h (ground arith))
    | inl big ↦
        let (t, e, after, pos) = write_if_necessary-Holds s all h in
        let short : zcbor.position t.state ≤ size = ground (arith, h.fits) in
        rw (e, minus_zero, big) (write_rest-Complete t all after short)
  ]
