-- ===== src/Streaming/Decoder/Collected.antt =====
-- `enqueue` of include/thingset++/StreamingQueuingThingSetBinaryDecoder.hpp for the frames of a CAN report: the decoder
-- that collects them, and what it can read when it has the last one.
use thingsetplusplus.Prelude.{
  append_assoc, ℕ, suc, ◌-◌, ◌*◌, ◌%◌, ◌≤◌, ◌<◌, ◌≡◌, refl, sym, ap, ◌∙◌, inl, Bool, true, false,
  List, [], ◌∷◌, ◌++◌, Option, none, some, ◌==◌, if◌then◌else◌, length, length-append, take, drop,
  length-take, arith,
}
use thingsetplusplus.Bytes.{Bytes}
use thingsetplusplus.Can.Id.{first, consecutive, last, single}
use thingsetplusplus.Streaming.{Frame, frame_id}
use thingsetplusplus.Streaming.Frames.{Full}
use thingsetplusplus.Streaming.Decoder.{
  Reader, StreamingDecoder, on_bus, begins_report, ends_report, enqueue, start, read, fill,
}
use thingsetplusplus.Streaming.Decoder.Fill.{waiting, FullButLast, IsFull, fill-Filled, drop-append}
use thingsetplusplus.Streaming.Decoder.Buffer.{Reads, Decodes}
use thingsetplusplus.Streaming.Decoder.Bus.{begins, ends, on_bus-reads, arrivals}
use thingsetplusplus.Streaming.Decoder.Handled.{receive_found, receive, receive_each, also}

module _ {Z Item : Type 0} (zcbor : Reader Z Item) (size : ℕ) (fresh : StreamingDecoder Z Frame)
    (empty : fresh.queue ≡ []) (address number : ℕ) (address_fits : address < 256)
    (number_fits : number < 256) (padding : ℕ → Bytes) where
  -- A sender's decoder after the frames of a report that have arrived.
  abbrev pub holding : List Frame → StreamingDecoder Z Frame
  holding fs = record fresh { queue = arrivals address number address_fits number_fits padding fs }

  after : List Frame → Option (StreamingDecoder Z Frame) → Option (StreamingDecoder Z Frame)
  after [] o = o
  after (f ∷ fs) o = some (holding (f ∷ fs))

  in_hand :
      (fs : List Frame) (o : Option (StreamingDecoder Z Frame)) (b : Bool)
      → b ≡ (length fs == 0)
      → (if b then some fresh else after fs o) ≡ some (holding fs)
  unfolding arrivals after
  in_hand [] o b e = rw (e) (ap {A = List Frame} (λ q. some (record fresh { queue = q })) empty)
  in_hand (f ∷ fs) o b e = let later : b ≡ false = e ∙ ground arith in rw (later) refl

  receive-more :
      (f : Frame) (fs : List Frame) (o : Option (StreamingDecoder Z Frame))
      → begins_report (on_bus address number padding f) ≡ (length fs == 0)
      → ends_report (on_bus address number padding f) ≡ false
      → receive zcbor size fresh (on_bus address number padding f) (after fs o)
        ≡ (none, after (f ∷ fs) o)
  unfolding receive receive_found enqueue arrivals after
  receive-more f fs o b e =
      ap (receive_found zcbor size fresh (on_bus address number padding f))
        (in_hand fs o (begins_report (on_bus address number padding f)) b)
      ∙ rw (e) refl

  receive-last :
      (f : Frame) (fs : List Frame) (o : Option (StreamingDecoder Z Frame))
      → begins_report (on_bus address number padding f) ≡ (length fs == 0)
      → ends_report (on_bus address number padding f) ≡ true
      → (receive zcbor size fresh (on_bus address number padding f) (after fs o)).0
        ≡ some (start (λ m. m.payload) zcbor size 0 (holding (f ∷ fs)))
  unfolding receive receive_found enqueue arrivals after
  receive-last f fs o b e =
      ap (λ x. (receive_found zcbor size fresh (on_bus address number padding f) x).0)
        (in_hand fs o (begins_report (on_bus address number padding f)) b)
      ∙ rw (e) refl

  begins-middle :
      (fs : List Frame)
      → (begins (if length fs == 0 then first else consecutive) ≡ (length fs == 0))
        × (ends (if length fs == 0 then first else consecutive) ≡ false)
  unfolding begins ends
  begins-middle [] = (refl, refl)
  begins-middle (f ∷ fs) =
      let e : (suc (length fs) == 0) ≡ false = ground arith in rw (e) (refl, refl)

  begins-end :
      (fs : List Frame)
      → (begins (if length fs == 0 then single else last) ≡ (length fs == 0))
        × (ends (if length fs == 0 then single else last) ≡ true)
  unfolding begins ends
  begins-end [] = (refl, refl)
  begins-end (f ∷ fs) = let e : (suc (length fs) == 0) ≡ false = ground arith in rw (e) (refl, refl)

  receive_each-before :
      (fs rest : List Frame) (o : Option (StreamingDecoder Z Frame))
      → Full size fs
      → receive_each zcbor size fresh
          (arrivals address number address_fits number_fits padding fs ++ rest)
          o
        ≡ receive_each zcbor size fresh rest (after fs o)
  unfolding arrivals receive_each after also
  receive_each-before [] rest o h = refl
  receive_each-before (f ∷ fs) rest o h =
      let f' = on_bus address number padding f in
      let (s, b, e) =
        on_bus-reads address number address_fits number_fits padding f
          (if length fs == 0 then first else consecutive) (length fs % 256) (omega arith) h.0 in
      let (mb, me) = begins-middle fs in
      let step = receive-more f fs o (b ∙ mb) (e ∙ me) in
      ap (λ q. receive_each zcbor size fresh q o)
        (append_assoc (arrivals address number address_fits number_fits padding fs) (f' ∷ []) rest)
      ∙ receive_each-before fs (f' ∷ rest) o h.2
      ∙ rw (step) refl

  -- All frames of a report lead to one decoder, which holds them.
  pub receive_each-report :
      (f : Frame) (fs : List Frame) (o : Option (StreamingDecoder Z Frame))
      → Full size fs
      → f.id ≡ frame_id (if length fs == 0 then single else last) (length fs % 256)
      → receive_each zcbor size fresh
          (arrivals address number address_fits number_fits padding (f ∷ fs))
          o
        ≡ start (λ m. m.payload) zcbor size 0 (holding (f ∷ fs)) ∷ []
  unfolding arrivals receive_each also
  receive_each-report f fs o h id =
      let (s, b, e) =
        on_bus-reads address number address_fits number_fits padding f
          (if length fs == 0 then single else last) (length fs % 256) (omega arith) id in
      let (mb, me) = begins-end fs in
      receive_each-before fs (on_bus address number padding f ∷ []) o h
      ∙ ap (λ r. also zcbor size fresh r []) (receive-last f fs o (b ∙ mb) (e ∙ me))

module _ {Z Item : Type 0} (zcbor : Reader Z Item) (size : ℕ) (filled : 0 < size)
    (encoding : Item → Bytes) (decodes : Decodes zcbor encoding) where
  positive :
      (queue : List Frame) (n x : ℕ) (buffer rest : Bytes)
      → IsFull (λ m. m.payload) size n queue
      → take n buffer ++ waiting (λ m. m.payload) size queue ≡ x ∷ rest
      → 1 ≤ n
  unfolding waiting
  positive [] n x buffer rest full e =
      let long = ap {A = Bytes} length e in
      omega (arith, length-append (take n buffer) [], length-take n buffer, long)
  positive (m ∷ ms) n x buffer rest full e = omega (arith, full)

  -- The decoder that has all messages begins behind the first byte.
  pub start-Reads :
      (d : StreamingDecoder Z Frame) (queue : List Frame) (x : ℕ) (rest padding : Bytes)
      → FullButLast (λ m. m.payload) size queue
      → waiting (λ m. m.payload) size queue ≡ (x ∷ rest) ++ padding
      → length d.buffer ≡ size * 2
      → let d' = start (λ m. m.payload) zcbor size 0 (record d { queue = queue }) in
        Reads (λ m. m.payload) zcbor size d' rest
        × (zcbor.position d'.state ≡ 1)
        × (zcbor.left d'.state ≡ 2 ∷ [])
  unfolding start read waiting
  start-Reads d [] x rest padding queued e capacity = cc
  start-Reads d (m ∷ ms) x rest padding queued e capacity =
      let (n, queue, buffer) = fill (λ m'. m'.payload) 0 (size * 2) (m ∷ ms) d.buffer in
      let f =
        fill-Filled (λ m'. m'.payload) size (m ∷ ms) 0 d.buffer capacity (omega arith) queued
          (inl refl) in
      let whole = f.together ∙ e in
      let some_ = positive queue n x buffer (rest ++ padding) f.full whole in
      let (position, room, left) = decodes.news 1 (size * 2 - 1) 2 in
      (
        record {
          filled = n;
          padding = padding;
          bytes = rw (position) (
              sym (
                drop-append 1 (take n buffer) (waiting (λ m'. m'.payload) size queue)
                  (omega (arith, length-take n buffer, some_, f.capacity, f.within)))
              ∙ ap (drop 1) whole);
          behind = omega (arith, position, some_);
          capacity = f.capacity;
          within = f.within;
          allowed = omega (arith, position, room, f.within);
          queued = f.queued;
          full = f.full;
        },
        position,
        left,
      )
