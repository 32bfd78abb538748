-- ===== src/Streaming/Decoder/Lockstep.antt =====
-- The items at which the encoder of include/thingset++/StreamingThingSetBinaryEncoder.hpp and the decoder move their
-- buffers on.
use thingsetplusplus.Prelude.{
  ℕ, ◌+◌, ◌-◌, ◌*◌, ◌^◌, ◌≤◌, ◌<◌, ◌≡◌, refl, ap, inl, inr, Bool, true, List, [], ◌∷◌, ◌++◌, some,
  map, ltb, if◌then◌else◌, length, arith, Bool-cases,
}
use thingsetplusplus.Bytes.{Bytes}
use thingsetplusplus.Can.Id.{CanId}
use thingsetplusplus.Streaming.{Zcbor, Stream, encode, put_item, Transport, write}
use thingsetplusplus.Streaming.Frames.{Advances, Holds, write_if_necessary-Holds, encode-Holds}
use thingsetplusplus.Streaming.Report.{encode_each, encodings}
use thingsetplusplus.Streaming.Decoder.{Reader, StreamingDecoder, decode_item, decode_each}
use thingsetplusplus.Streaming.Decoder.Window.{Fits, decode_item-Reads}
use thingsetplusplus.Streaming.Decoder.Buffer.{AreCounted, Reads, Decodes, shifted}

module _ {Z Item : Type 0} (zcbor : Zcbor Z Item) (size : ℕ) (filled : 0 < size)
    (encoding : Item → Bytes) (advances : Advances zcbor encoding) (publish : CanId → Bytes → Bool)
    (published : (id : CanId) (b : Bytes) → publish id b ≡ true) where
  encode-place :
      (item : Item) (s : Stream Z Transport) (all : Bytes)
      → Holds zcbor size s all
      → (encode zcbor size 0 (write publish) item s).0 ≡ true
      → let next =
          if ltb size (zcbor.position s.state)
          then zcbor.position s.state - size
          else zcbor.position s.state in
        (next + length (encoding item) ≤ size * 2)
        × (zcbor.position (encode zcbor size 0 (write publish) item s).1.state
            ≡ next + length (encoding item))
  unfolding encode put_item
  encode-place item s all h ok =
      let (t, e, after, pos) =
        write_if_necessary-Holds zcbor size filled encoding advances publish published s all h in
      let good : (zcbor.put item t.state).0 ≡ true = rw e at ok in
      let bytes = ap {A = Bytes} length (advances.put_encodes item t.state good) in
      let moved = advances.put_advances item t.state in
      let within = advances.put_within item t.state in
      rw (e) (omega (arith, bytes, within, after.fits, pos), omega (arith, bytes, moved, pos))

  module _ {R M : Type 0} (get_buffer : M → Bytes) (reader : Reader R Item) (sized : size < 2 ^ 16)
      (decodes : Decodes reader encoding) where
    pub encode_each-Fits :
        (items : List Item) (s : Stream Z Transport) (all : Bytes)
        → Holds zcbor size s all
        → (encode_each zcbor size publish items s).0 ≡ true
        → Fits get_buffer reader size sized encoding decodes (zcbor.position s.state) items
    unfolding encode_each shifted
    encode_each-Fits [] s all h ok = tt
    encode_each-Fits (item ∷ items) s all h ok =
        elim (Bool-cases (encode zcbor size 0 (write publish) item s).0) [
          | inr bad ↦ let e = rw bad at ok in cc
          | inl good ↦
              let (fits, pos) = encode-place item s all h good in
              let after =
                encode_each-Fits items (encode zcbor size 0 (write publish) item s).1
                  (all ++ encoding item)
                  (encode-Holds zcbor size filled encoding advances publish published item s all h
                    good)
                  (rw good at ok) in
              (fits, rw pos at after)
        ]

    pub decode_each-Reads :
        (beyond : Bytes) (items : List Item) (d : StreamingDecoder R M)
        → Reads get_buffer reader size d (encodings encoding items)
        → Fits get_buffer reader size sized encoding decodes (reader.position d.state) items
        → AreCounted reader items (reader.left d.state)
        → (decode_each get_buffer reader size 0 beyond (length items) d).0 ≡ map some items
    unfolding decode_each
    decode_each-Reads beyond [] d h fits counted = refl
    decode_each-Reads beyond (item ∷ items) d h (fits, rest) (left, counted, more) =
        let (got, after, pos, kept) =
          decode_item-Reads get_buffer reader size sized encoding decodes beyond d item
            (encodings encoding items) left h fits counted in
        let d' = (decode_item get_buffer reader size 0 beyond d).1 in
        rw (got) (
          ap (◌∷◌ (some item))
            (decode_each-Reads beyond items d' after (rw (pos) rest) (rw (kept) more)))
