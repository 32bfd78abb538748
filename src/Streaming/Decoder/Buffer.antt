-- ===== src/Streaming/Decoder/Buffer.antt =====
-- The buffer of include/thingset++/StreamingThingSetBinaryDecoder.hpp: what of a report it holds, and what its second half
-- is after the move to the start.
use thingsetplusplus.Prelude.{
  ℕ, ◌+◌, ◌-◌, ◌*◌, ◌≤◌, ◌≡◌, List, [], ◌∷◌, ◌++◌, some, ltb, if◌then◌else◌, length, take, drop,
}
use thingsetplusplus.Bytes.{Bytes}
use thingsetplusplus.Streaming.Decoder.{Reader, StreamingDecoder}
use thingsetplusplus.Streaming.Decoder.Fill.{waiting, FullButLast, IsFull}

-- The documented behaviour of zcbor: an item is decoded from its encoding, if that may be read and an element is left
-- for it, and the pointer is moved behind it; and the pointer, what may be read and the number of elements are what
-- they are set to.
pub record Decodes {Z Item : Type 0} (zcbor : Reader Z Item) (encoding : Item → Bytes)
    : Type 0 where
  pub gets :
      (item : Item) (rest : Bytes) (z : Z) (left : List ℕ)
      → length (encoding item) ≤ zcbor.room z
      → zcbor.counts item (zcbor.left z) ≡ some left
      → let (got, z') = zcbor.get (encoding item ++ rest) z in
        (got ≡ some item)
        × (zcbor.position z' ≡ zcbor.position z + length (encoding item))
        × (zcbor.room z' ≡ zcbor.room z - length (encoding item))
        × (zcbor.left z' ≡ left)
  pub updates :
      (p n : ℕ) (z : Z)
      → (zcbor.position (zcbor.update_state p n z) ≡ p)
        × (zcbor.room (zcbor.update_state p n z) ≡ n)
        × (zcbor.left (zcbor.update_state p n z) ≡ zcbor.left z)
  pub news :
      (p n count : ℕ)
      → (zcbor.position (zcbor.new_state p n count) ≡ p)
        × (zcbor.room (zcbor.new_state p n count) ≡ n)
        × (zcbor.left (zcbor.new_state p n count) ≡ count ∷ [])

-- The number of elements is enough for items that are decoded one after the other.
abbrev pub AreCounted : {Z Item : Type 0} → Reader Z Item → List Item → List ℕ → Type 0
AreCounted zcbor [] left = Unit {0}
AreCounted zcbor (item ∷ items) left =
    (left' : List ℕ) × (zcbor.counts item left ≡ some left') × AreCounted zcbor items left'

module _ {M Z Item : Type 0} (get_buffer : M → Bytes) (zcbor : Reader Z Item) (size : ℕ) where
  -- `rest` is what is still to be read of the report, in the buffer and in the queue, and some padding.
  pub record Reads (d : StreamingDecoder Z M) (rest : Bytes) : Type 0 where
    pub filled : ℕ
    pub padding : Bytes
    pub bytes :
        drop (zcbor.position d.state) (take filled d.buffer) ++ waiting get_buffer size d.queue
        ≡ rest ++ padding
    pub behind : zcbor.position d.state ≤ filled
    pub capacity : length d.buffer ≡ size * 2
    pub within : filled ≤ size * 2
    pub allowed : filled ≤ zcbor.position d.state + zcbor.room d.state
    pub queued : FullButLast get_buffer size d.queue
    pub full : IsFull get_buffer size filled d.queue

  -- Where the pointer is when an item has been asked for.
  unfoldable pub shifted : ℕ → ℕ
  shifted pos = if ltb size pos then pos - size else pos
