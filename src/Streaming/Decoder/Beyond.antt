-- ===== src/Streaming/Decoder/Beyond.antt =====
-- What `ensureLength` of include/thingset++/StreamingThingSetBinaryDecoder.hpp allows zcbor to read.
use thingsetplusplus.Prelude.{
  ℕ, ◌+◌, ◌-◌, ◌*◌, ◌%◌, ◌^◌, ◌≤◌, ◌<◌, ◌≡◌, refl, inl, inr, true, List, ◌∷◌, ◌&&◌, leb, ltb,
  length, arith,
}
use thingsetplusplus.Bytes.{Bytes}
use thingsetplusplus.Streaming.Decoder.{
  Reader, StreamingDecoder, copy_to, move_down, fill, read, refill, ensure_length,
}
use thingsetplusplus.Streaming.Decoder.Fill.{
  FullButLast, length-copy_to, fill-Filled, first-le, others-FullButLast, next-AtHalf,
}
use thingsetplusplus.Streaming.Decoder.Buffer.{Decodes}
use thingsetplusplus.Streaming.Decoder.Cuts.{length-move_down}

module _ {M Z Item : Type 0} (get_buffer : M → Bytes) (zcbor : Reader Z Item) (size : ℕ)
    (sized : size < 2 ^ 16) (encoding : Item → Bytes) (decodes : Decodes zcbor encoding) where
  fill-more :
      (m : M) (ms : List M) (b : Bytes)
      → length b ≡ size * 2
      → FullButLast get_buffer size (m ∷ ms)
      → (size + length (get_buffer m) ≤ (fill get_buffer size (size * 2) (m ∷ ms) b).0)
        × ((fill get_buffer size (size * 2) (m ∷ ms) b).0 ≤ size * 2)
  unfolding fill
  fill-more m ms b capacity h =
      let k = length (get_buffer m) in
      let short = first-le get_buffer size m ms h in
      let goes : (leb size (size * 2) && leb (size + k) (size * 2)) ≡ true = ground arith in
      let rest =
        fill-Filled get_buffer size ms (size + k) (copy_to size (get_buffer m) b)
          (omega (arith, length-copy_to size (get_buffer m) b (omega arith))) (omega arith)
          (others-FullButLast get_buffer size m ms h)
          (next-AtHalf get_buffer size m ms size h (inr (inl refl)) (omega arith)) in
      rw (goes) (rest.onwards, rest.within)

  refill-beyond :
      (z : Z) (b : Bytes) (m : M) (ms : List M) (n : ℕ)
      → length b ≡ size * 2
      → FullButLast get_buffer size (m ∷ ms)
      → size < zcbor.position z
      → zcbor.position z ≤ size * 2
      → let d : StreamingDecoder Z M = record {
        state = z;
        buffer = b;
        queue = m ∷ ms;
        decoded_length = n;
      } in
        let d' = refill get_buffer zcbor size 0 d in
        size * 2 + length (get_buffer m) ≤ zcbor.position d'.state + zcbor.room d'.state
  unfolding refill read
  refill-beyond z b m ms n capacity h above below =
      let zero_header : size - 0 ≡ size = omega arith in
      let b' = move_down size b in
      let (onwards, within) = fill-more m ms b' (length-move_down size b capacity) h in
      let r = (fill get_buffer size (size * 2) (m ∷ ms) b').0 in
      let new_pos = zcbor.position z - size in
      let (position, room, _) =
        decodes.updates new_pos ((size + r + 2 ^ 32 - new_pos) % 2 ^ 32) z in
      rw (zero_header) (omega (arith, position, room, onwards, within))

  -- Where the decoder moves its window on and copies a message behind what it keeps, the end of what zcbor is told that
  -- it may read lies behind the end of the buffer, by at least as many bytes as the message has.
  pub ensure_length-beyond :
      (z : Z) (b : Bytes) (m : M) (ms : List M) (n : ℕ)
      → length b ≡ size * 2
      → FullButLast get_buffer size (m ∷ ms)
      → size < zcbor.position z
      → zcbor.position z ≤ size * 2
      → let d : StreamingDecoder Z M = record {
        state = z;
        buffer = b;
        queue = m ∷ ms;
        decoded_length = n;
      } in
        let d' = ensure_length get_buffer zcbor size 0 d in
        size * 2 + length (get_buffer m) ≤ zcbor.position d'.state + zcbor.room d'.state
  unfolding ensure_length
  ensure_length-beyond z b m ms n capacity h above below =
      let test : ltb (size - 0) (zcbor.position z) ≡ true = ground arith in
      rw (test) (refill-beyond z b m ms n capacity h above below)
