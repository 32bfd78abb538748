-- ===== src/Streaming/Decoder/Bus.antt =====
-- The frames of a report as they arrive: what src/can/ThingSetCanServerTransport.cpp and the bus leave of them.
use thingsetplusplus.Prelude.{
  append_assoc, append_nil, ℕ, ◌+◌, ◌*◌, ◌/◌, ◌^◌, ◌≤◌, ◌<◌, ◌≡◌, refl, sym, ap, ◌∙◌, Bool, true,
  false, List, [], ◌∷◌, ◌++◌, length, length-append, arith,
}
use thingsetplusplus.Bytes.{Bytes}
use thingsetplusplus.Can.Id.{
  CanId, MultiFrameMessageType, first, consecutive, last, single, multi_frame_message_type,
  get_multi_frame_message_type, get_source, set_source, set_message_number,
}
use thingsetplusplus.Can.Id.Layout.{Layout, layout}
use thingsetplusplus.Can.Id.Layout.Getters.{get_source_lem, get_multi_frame_message_type_lem}
use thingsetplusplus.Can.Id.Layout.Setters.{set_source-Holds, set_message_number-Holds}
use thingsetplusplus.Streaming.{Frame, frame_id}
use thingsetplusplus.Streaming.Frames.{sent, Full}
use thingsetplusplus.Streaming.Report.{frame_id-Holds}
use thingsetplusplus.Streaming.Decoder.{is_type, ends_report, begins_report, on_bus}
use thingsetplusplus.Streaming.Decoder.Fill.{waiting, FullButLast}

unfoldable pub begins : MultiFrameMessageType → Bool
begins first = true
begins consecutive = false
begins last = false
begins single = true

unfoldable pub ends : MultiFrameMessageType → Bool
ends first = false
ends consecutive = false
ends last = true
ends single = true

whole_type :
    (t : MultiFrameMessageType)
    → multi_frame_message_type t / 2 ^ 12 * 2 ^ 12 ≡ multi_frame_message_type t
unfolding multi_frame_message_type
whole_type first = refl
whole_type consecutive = refl
whole_type last = refl
whole_type single = refl

module _ (address number : ℕ) (address_fits : address < 256) (number_fits : number < 256)
    (padding : ℕ → Bytes) where
  id-fields :
      (t : MultiFrameMessageType) (n : ℕ)
      → n < 256
      → let id = set_message_number number (set_source address (frame_id t n)) in
        (get_source id ≡ address) × (get_multi_frame_message_type id ≡ multi_frame_message_type t)
  id-fields t n h =
      let frame = frame_id-Holds t n h in
      let c = set_source address (frame_id t n) in
      let sourced = set_source-Holds address (frame_id t n) address_fits frame.word in
      let numbered = set_message_number-Holds number c number_fits sourced.word in
      let id = set_message_number number c in
      let source : (layout id.id).source ≡ address =
        ap {A = Layout} (λ l. l.source) numbered.fields
        ∙ ap {A = Layout} (λ l. l.source) sourced.fields in
      let kind : (layout id.id).multi_frame_type ≡ multi_frame_message_type t / 2 ^ 12 =
        ap {A = Layout} (λ l. l.multi_frame_type) numbered.fields
        ∙ ap {A = Layout} (λ l. l.multi_frame_type) sourced.fields
        ∙ ap {A = Layout} (λ l. l.multi_frame_type) frame.fields in
      (
        get_source_lem id ∙ source,
        get_multi_frame_message_type_lem id ∙ ap {A = ℕ} (λ k. k * 2 ^ 12) kind ∙ whole_type t,
      )

  typed :
      (t : MultiFrameMessageType) (f : Frame)
      → get_multi_frame_message_type f.id ≡ multi_frame_message_type t
      → (begins_report f ≡ begins t) × (ends_report f ≡ ends t)
  unfolding begins_report ends_report is_type begins ends multi_frame_message_type
  typed first f e = rw (e) (refl, refl)
  typed consecutive f e = rw (e) (refl, refl)
  typed last f e = rw (e) (refl, refl)
  typed single f e = rw (e) (refl, refl)

  -- The source and the type of a frame are what the receiver reads.
  pub on_bus-reads :
      (f : Frame) (t : MultiFrameMessageType) (n : ℕ)
      → n < 256
      → f.id ≡ frame_id t n
      → (get_source (on_bus address number padding f).id ≡ address)
        × (begins_report (on_bus address number padding f) ≡ begins t)
        × (ends_report (on_bus address number padding f) ≡ ends t)
  unfolding on_bus
  on_bus-reads f t n h e =
      let (source, kind) = id-fields t n h in
      let same : set_message_number number (set_source address f.id)
          ≡ set_message_number number (set_source address (frame_id t n)) =
        ap {A = CanId} (λ c. set_message_number number (set_source address c)) e in
      let (b, d) =
        typed t (on_bus address number padding f) (ap get_multi_frame_message_type same ∙ kind) in
      (ap get_source same ∙ source, b, d)

  -- The frames in the order in which they arrive, from those that were sent, the last one first.
  unfoldable pub arrivals : List Frame → List Frame
  arrivals [] = []
  arrivals (f ∷ fs) = arrivals fs ++ on_bus address number padding f ∷ []

  module _ (size : ℕ) (padded : (k : ℕ) → k ≤ size → k + length (padding k) ≤ size) where
    nil_length : (b : Bytes) → length b ≡ 0 → b ≡ []
    nil_length [] e = refl
    nil_length (x ∷ b) e = ground arith

    on_bus-full :
        (f : Frame)
        → length f.payload ≡ size
        → (on_bus address number padding f).payload ≡ f.payload
    unfolding on_bus
    on_bus-full f e =
        ap (f.payload ++◌) (
          nil_length (padding (length f.payload))
            (omega (arith, padded (length f.payload) (omega arith))))
        ∙ append_nil f.payload

    waiting-append :
        (fs gs : List Frame)
        → waiting (λ f. f.payload) size (fs ++ gs)
          ≡ waiting (λ f. f.payload) size fs ++ waiting (λ f. f.payload) size gs
    unfolding waiting
    waiting-append [] gs = refl
    waiting-append (f ∷ fs) gs =
        ap (f.payload ++◌) (waiting-append fs gs)
        ∙ sym (
            append_assoc f.payload (waiting (λ f. f.payload) size fs)
              (waiting (λ f. f.payload) size gs))

    Full-waiting :
        (fs : List Frame) → Full size fs → waiting (λ f. f.payload) size (arrivals fs) ≡ sent fs
    unfolding arrivals waiting sent
    Full-waiting [] h = refl
    Full-waiting (f ∷ fs) h =
        waiting-append (arrivals fs) (on_bus address number padding f ∷ [])
        ∙ ap (◌++ ((on_bus address number padding f).payload ++ [])) (Full-waiting fs h.2)
        ∙ ap (sent fs ++◌)
            (append_nil (on_bus address number padding f).payload ∙ on_bus-full f h.1)

    -- What arrives of a report is what was sent, and the padding of its last frame.
    pub arrivals-waiting :
        (f : Frame) (fs : List Frame)
        → Full size fs
        → waiting (λ f. f.payload) size (arrivals (f ∷ fs))
          ≡ sent (f ∷ fs) ++ padding (length f.payload)
    unfolding arrivals waiting sent on_bus
    arrivals-waiting f fs h =
        waiting-append (arrivals fs) (on_bus address number padding f ∷ [])
        ∙ ap (◌++ ((f.payload ++ padding (length f.payload)) ++ [])) (Full-waiting fs h)
        ∙ ap (sent fs ++◌) (append_nil (f.payload ++ padding (length f.payload)))
        ∙ sym (append_assoc (sent fs) f.payload (padding (length f.payload)))

    snoc-FullButLast :
        (ms : List Frame) (m n : Frame)
        → FullButLast (λ f. f.payload) size (ms ++ m ∷ [])
        → length m.payload ≡ size
        → length n.payload ≤ size
        → FullButLast (λ f. f.payload) size ((ms ++ m ∷ []) ++ n ∷ [])
    snoc-FullButLast [] m n h e l = (e, l)
    snoc-FullButLast (k ∷ []) m n h e l = (h.0, (e, l))
    snoc-FullButLast (k ∷ j ∷ ms) m n h e l = (h.0, snoc-FullButLast (j ∷ ms) m n h.1 e l)

    pub arrivals-FullButLast :
        (f : Frame) (fs : List Frame)
        → Full size fs
        → length f.payload ≤ size
        → FullButLast (λ f. f.payload) size (arrivals (f ∷ fs))
    unfolding arrivals on_bus
    arrivals-FullButLast f [] h l =
        omega
          (arith, length-append f.payload (padding (length f.payload)), padded (length f.payload) l)
    arrivals-FullButLast f (g ∷ gs) h l =
        snoc-FullButLast (arrivals gs) (on_bus address number padding g)
          (on_bus address number padding f) (arrivals-FullButLast g gs h.2 (omega (arith, h.1)))
          (ap {A = Bytes} length (on_bus-full g h.1) ∙ h.1)
          (omega (
            arith,
            length-append f.payload (padding (length f.payload)),
            padded (length f.payload) l,
          ))
