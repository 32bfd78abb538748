-- ===== src/Streaming/Decoder/Window.antt =====
-- The buffer of include/thingset++/StreamingThingSetBinaryDecoder.hpp as a window on the bytes of a report: where the
-- items that are read lie in it, and what moves it on.
use thingsetplusplus.Prelude.{
  append_assoc, append_nil, ℕ, ◌+◌, ◌-◌, ◌*◌, ◌%◌, ◌^◌, ◌≤◌, ◌<◌, ◌≡◌, refl, sym, ap, ◌∙◌, inl, inr,
  true, List, [], ◌∷◌, ◌++◌, some, ltb, length, length-append, take, drop, length-take, arith,
  Bool-cases,
}
use thingsetplusplus.Bytes.{Bytes}
use thingsetplusplus.Streaming.Decoder.{
  Reader, StreamingDecoder, move_down, fill, read, refill, ensure_length, decode_item,
}
use thingsetplusplus.Streaming.Decoder.Fill.{drop-append, waiting, IsFull, fill-Filled}
use thingsetplusplus.Streaming.Decoder.Cuts.{
  drop-drop, cut_first, behind-splits, length-window, length-move_down, moved,
}
use thingsetplusplus.Streaming.Decoder.Buffer.{Decodes, Reads, shifted}

module _ {M Z Item : Type 0} (get_buffer : M → Bytes) (zcbor : Reader Z Item) (size : ℕ) where
  module _ (sized : size < 2 ^ 16) (encoding : Item → Bytes)
      (decodes : Decodes zcbor encoding) where
    minus_zero : size - 0 ≡ size
    minus_zero = omega arith

    allowed_lem :
        (r pos filled : ℕ) (z : Z)
        → size < pos
        → pos ≤ size * 2
        → r ≤ size * 2
        → filled ≤ size + r
        → let n = (size + r + 2 ^ 32 - (pos - size)) % 2 ^ 32 in
          let z' = zcbor.update_state (pos - size) n z in
          (zcbor.position z' ≡ pos - size) × (filled ≤ zcbor.position z' + zcbor.room z')
    allowed_lem r pos filled z above below most h =
        let n = (size + r + 2 ^ 32 - (pos - size)) % 2 ^ 32 in
        let (e, e', _) = decodes.updates (pos - size) n z in (e, omega (arith, e, e'))

    refill-Reads :
        (z : Z) (b : Bytes) (queue : List M) (n : ℕ) (rest : Bytes)
        → let d : StreamingDecoder Z M = record {
          state = z;
          buffer = b;
          queue = queue;
          decoded_length = n;
        } in
          let d' = refill get_buffer zcbor size 0 d in
          (Reads get_buffer zcbor size) d rest
          → size < zcbor.position z
          → Reads get_buffer zcbor size d' rest
            × (zcbor.position d'.state ≡ zcbor.position z - size)
    unfolding refill read waiting
    refill-Reads z b [] n rest h above =
        let pos = zcbor.position z in
        let (e, allowed) =
          allowed_lem 0 pos (h.filled - size) z above (omega (arith, h.behind, h.within))
            (omega arith) (omega (arith, h.within)) in
        rw (minus_zero) (
          record {
            filled = h.filled - size;
            padding = h.padding;
            bytes = rw (e, moved size b pos h.filled h.capacity above h.behind h.within) h.bytes;
            behind = omega (arith, e, h.behind);
            capacity = length-move_down size b h.capacity;
            within = omega (arith, h.within);
            allowed = allowed;
            queued = tt;
            full = tt;
          },
          e,
        )
    refill-Reads z b (m ∷ ms) n rest h above =
        let pos = zcbor.position z in
        let queue = m ∷ ms in
        let b' = move_down size b in
        let long = length-move_down size b h.capacity in
        let f =
          fill-Filled get_buffer size queue size b' long (omega arith) h.queued (inr (inl refl)) in
        let (r, queue', b'') = fill get_buffer size (size * 2) queue b' in
        let (e, allowed) =
          allowed_lem r pos r z above (omega (arith, h.behind, h.within)) f.within (omega arith) in
        let lower : size ≡ h.filled - size = omega (arith, h.full) in
        let half : drop (pos - size) (take size b') ≡ drop pos (take h.filled b) =
          ap {A = ℕ} (λ k. drop (pos - size) (take k b')) lower
          ∙ moved size b pos h.filled h.capacity above h.behind h.within in
        let bytes : drop (pos - size) (take r b'') ++ waiting get_buffer size queue'
            ≡ rest ++ h.padding =
          sym (
            drop-append (pos - size) (take r b'') (waiting get_buffer size queue') (
              omega
                (arith, h.behind, h.within, f.onwards, f.within, f.capacity, length-take r b'')))
          ∙ ap (drop (pos - size)) f.together
          ∙ drop-append (pos - size) (take size b') (waiting get_buffer size queue)
              (omega (arith, h.behind, h.within, long, length-take size b'))
          ∙ ap (◌++ waiting get_buffer size queue) half
          ∙ h.bytes in
        rw (minus_zero) (
          record {
            filled = r;
            padding = h.padding;
            bytes = rw (e) bytes;
            behind = omega (arith, e, h.behind, h.within, f.onwards);
            capacity = f.capacity;
            within = f.within;
            allowed = allowed;
            queued = f.queued;
            full = f.full;
          },
          e,
        )

    pub ensure_length-Reads :
        (d : StreamingDecoder Z M) (rest : Bytes)
        → Reads get_buffer zcbor size d rest
        → Reads get_buffer zcbor size (ensure_length get_buffer zcbor size 0 d) rest
          × (zcbor.position (ensure_length get_buffer zcbor size 0 d).state
              ≡ shifted get_buffer zcbor size (zcbor.position d.state))
    unfolding ensure_length shifted
    ensure_length-Reads d rest h = elim (Bool-cases (ltb size (zcbor.position d.state))) [
      | inr near ↦ rw (minus_zero, near) (h, refl)
      | inl far ↦
          let test : ltb (size - 0) (zcbor.position d.state) ≡ true = rw (minus_zero) far in
          rw (test, far)
            (refill-Reads d.state d.buffer d.queue d.decoded_length rest h (ground arith))
    ]

    ensure_length-left :
        (d : StreamingDecoder Z M)
        → zcbor.left (ensure_length get_buffer zcbor size 0 d).state ≡ zcbor.left d.state
    unfolding ensure_length refill
    ensure_length-left d = elim (Bool-cases (ltb (size - 0) (zcbor.position d.state))) [
      | inr near ↦ rw (near) refl
      | inl far ↦ rw (far) ((decodes.updates _ _ d.state).2)
    ]

    -- Each of the items fits the buffer where its turn comes.
    abbrev pub Fits : ℕ → List Item → Type 0
    Fits pos [] = Unit {0}
    Fits pos (item ∷ items) =
        (shifted get_buffer zcbor size pos + length (encoding item) ≤ size * 2)
        × Fits (shifted get_buffer zcbor size pos + length (encoding item)) items

    reach :
        (queue : List M) (window : Bytes) (filled pos : ℕ) (item : Item) (behind : Bytes)
        → IsFull get_buffer size filled queue
        → window ++ waiting get_buffer size queue ≡ encoding item ++ behind
        → length window ≡ filled - pos
        → pos ≤ filled
        → pos + length (encoding item) ≤ size * 2
        → pos + length (encoding item) ≤ filled
    unfolding waiting
    reach [] window filled pos item behind full e long h fits = omega (
      arith,
      ap {A = Bytes} length (sym (append_nil window) ∙ e),
      length-append (encoding item) behind,
    )
    reach (m ∷ ms) window filled pos item behind full e long h fits = omega (arith, full)

    window_holds :
        (d : StreamingDecoder Z M) (item : Item) (rest : Bytes)
        (h : Reads get_buffer zcbor size d (encoding item ++ rest))
        → zcbor.position d.state + length (encoding item) ≤ size * 2
        → zcbor.position d.state + length (encoding item) ≤ h.filled
    window_holds d item rest h fits =
        reach d.queue (drop (zcbor.position d.state) (take h.filled d.buffer)) h.filled
          (zcbor.position d.state) item (rest ++ h.padding) h.full
          (h.bytes ∙ append_assoc (encoding item) rest h.padding)
          (length-window (zcbor.position d.state) h.filled d.buffer
            (omega (arith, h.capacity, h.within)))
          h.behind fits

    get-Reads :
        (beyond : Bytes) (d : StreamingDecoder Z M) (item : Item) (rest : Bytes) (left : List ℕ)
        → Reads get_buffer zcbor size d (encoding item ++ rest)
        → zcbor.position d.state + length (encoding item) ≤ size * 2
        → zcbor.counts item (zcbor.left d.state) ≡ some left
        → let (got, z) = zcbor.get (drop (zcbor.position d.state) d.buffer ++ beyond) d.state in
          (got ≡ some item)
          × Reads get_buffer zcbor size (record d { state = z }) rest
          × (zcbor.position z ≡ zcbor.position d.state + length (encoding item))
          × (zcbor.left z ≡ left)
    get-Reads beyond d item rest left h fits counted =
        let pos = zcbor.position d.state in
        let n = length (encoding item) in
        let inside = window_holds d item rest h fits in
        let window = drop pos (take h.filled d.buffer) in
        let allocated : h.filled ≤ length d.buffer = omega (arith, h.capacity, h.within) in
        let long = length-window pos h.filled d.buffer allocated in
        let (starts, goes_on) =
          cut_first window (waiting get_buffer size d.queue) (encoding item) (rest ++ h.padding)
            (h.bytes ∙ append_assoc (encoding item) rest h.padding) (omega (arith, h.behind)) in
        let memory =
          behind-splits pos h.filled d.buffer beyond (encoding item) h.behind allocated starts in
        let behind = drop n window ++ (drop h.filled d.buffer ++ beyond) in
        let readable : n ≤ zcbor.room d.state = omega (arith, h.allowed) in
        let (got, position, room, kept) = decodes.gets item behind d.state left readable counted in
        rw (memory) (
          got,
          record {
            filled = h.filled;
            padding = h.padding;
            bytes = rw (position, sym (drop-drop pos n (take h.filled d.buffer))) goes_on;
            behind = omega (arith, position, inside);
            capacity = h.capacity;
            within = h.within;
            allowed = omega (arith, position, room, h.allowed);
            queued = h.queued;
            full = h.full;
          },
          position,
          kept,
        )

    -- An item that is next in the report is what is decoded, and those behind it are next.
    pub decode_item-Reads :
        (beyond : Bytes) (d : StreamingDecoder Z M) (item : Item) (rest : Bytes) (left : List ℕ)
        → Reads get_buffer zcbor size d (encoding item ++ rest)
        → shifted get_buffer zcbor size (zcbor.position d.state) + length (encoding item) ≤ size * 2
        → zcbor.counts item (zcbor.left d.state) ≡ some left
        → let (got, d') = decode_item get_buffer zcbor size 0 beyond d in
          (got ≡ some item)
          × Reads get_buffer zcbor size d' rest
          × (zcbor.position d'.state
              ≡ shifted get_buffer zcbor size (zcbor.position d.state) + length (encoding item))
          × (zcbor.left d'.state ≡ left)
    unfolding decode_item
    decode_item-Reads beyond d item rest left h fits counted =
        let (h', e) = ensure_length-Reads d (encoding item ++ rest) h in
        let d' = ensure_length get_buffer zcbor size 0 d in
        let (got, after, pos, kept) =
          get-Reads beyond d' item rest left h' (rw (e) fits) (rw (ensure_length-left d) counted) in
        (got, after, pos ∙ ap {A = ℕ} (λ p. p + length (encoding item)) e, kept)
