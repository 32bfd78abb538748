-- ===== src/Streaming/Decoder/Handled.antt =====
-- `handle` of include/thingset++/ThingSetSubscriptionTransport.hpp on frames of several senders, and on those of one
-- of them.
use thingsetplusplus.Prelude.{
  ℕ, ◌≡◌, refl, sym, ap, ◌∙◌, inl, inr, Bool, true, false, List, [], ◌∷◌, Option, none, some, ◌==◌,
  if◌then◌else◌, arith, Bool-cases,
}
use thingsetplusplus.Can.Id.{get_source}
use thingsetplusplus.Streaming.{Frame}
use thingsetplusplus.Streaming.Decoder.{
  Reader, StreamingDecoder, Decoders, store, find_decoder, handle, enqueue, begins_report,
  ends_report, handle_found,
}

module _ {Z Item : Type 0} (zcbor : Reader Z Item) (size : ℕ)
    (fresh : StreamingDecoder Z Frame) where
  unfoldable pub deliver :
      ℕ
      → Option (StreamingDecoder Z Frame)
      → List (ℕ × StreamingDecoder Z Frame)
      → List (ℕ × StreamingDecoder Z Frame)
  deliver a none rest = rest
  deliver a (some d) rest = (a, d) ∷ rest

  unfoldable pub also :
      Option (StreamingDecoder Z Frame)
      → List (StreamingDecoder Z Frame)
      → List (StreamingDecoder Z Frame)
  also none rest = rest
  also (some d) rest = d ∷ rest

  -- What is handed to the callback, with the sender that the identifier names, frame by frame.
  unfoldable pub handle_each :
      List Frame → Decoders zcbor size fresh → List (ℕ × StreamingDecoder Z Frame)
  unfolding handle deliver
  handle_each [] ds = []
  handle_each (f ∷ fs) ds =
      let (ready, ds') = handle zcbor size fresh f ds in
      let rest = handle_each fs ds' in deliver (get_source f.id) ready rest

  unfoldable pub delivered_by :
      ℕ → List (ℕ × StreamingDecoder Z Frame) → List (StreamingDecoder Z Frame)
  delivered_by a [] = []
  delivered_by a ((b, d) ∷ ds) = if b == a then d ∷ delivered_by a ds else delivered_by a ds

  unfoldable pub frames_of : ℕ → List Frame → List Frame
  frames_of a [] = []
  frames_of a (f ∷ fs) = if get_source f.id == a then f ∷ frames_of a fs else frames_of a fs

  -- One sender's frames, given its decoder: what each leads to, and the decoder behind it.
  unfoldable pub receive_found :
      Frame
      → Option (StreamingDecoder Z Frame)
      → Option (StreamingDecoder Z Frame) × Option (StreamingDecoder Z Frame)
  receive_found f none = (none, none)
  receive_found f (some d) =
      let (ready, d') = enqueue (λ m. m.payload) zcbor size 0 ends_report f d in
      (if ready then some d' else none, some d')

  unfoldable pub receive :
      Frame
      → Option (StreamingDecoder Z Frame)
      → Option (StreamingDecoder Z Frame) × Option (StreamingDecoder Z Frame)
  unfolding receive_found
  receive f o = receive_found f (if begins_report f then some fresh else o)

  unfoldable pub receive_each :
      List Frame → Option (StreamingDecoder Z Frame) → List (StreamingDecoder Z Frame)
  unfolding receive also
  receive_each [] o = []
  receive_each (f ∷ fs) o =
      let (ready, o') = receive f o in let rest = receive_each fs o' in also ready rest

  same : (k : ℕ) → (k == k) ≡ true
  same k = ground arith

  found-own :
      (f : Frame) (o : Option (StreamingDecoder Z Frame)) (ds : Decoders zcbor size fresh)
      → (o ≡ none → ds (get_source f.id) ≡ none)
      → ((handle_found zcbor size fresh f o ds).0 ≡ (receive_found f o).0)
        × ((handle_found zcbor size fresh f o ds).1 (get_source f.id) ≡ (receive_found f o).1)
  unfolding handle_found store receive_found
  found-own f none ds h = (refl, h refl)
  found-own f (some d) ds h = rw (same (get_source f.id)) (refl, refl)

  neither :
      (new : Bool) (o : Option (StreamingDecoder Z Frame))
      → (if new then some fresh else o) ≡ none
      → o ≡ none
  neither true o h = cc
  neither false o h = h

  handle-own :
      (f : Frame) (ds : Decoders zcbor size fresh) (o : Option (StreamingDecoder Z Frame))
      → ds (get_source f.id) ≡ o
      → ((handle zcbor size fresh f ds).0 ≡ (receive f o).0)
        × ((handle zcbor size fresh f ds).1 (get_source f.id) ≡ (receive f o).1)
  unfolding handle find_decoder receive
  handle-own f ds o e =
      let found = if begins_report f then some fresh else ds (get_source f.id) in
      let (a, b) = found-own f found ds (neither (begins_report f) (ds (get_source f.id))) in
      let same_found : found ≡ (if begins_report f then some fresh else o) =
        ap (λ o'. if begins_report f then some fresh else o') e in
      (
        a ∙ ap (λ x. (receive_found f x).0) same_found,
        b ∙ ap (λ x. (receive_found f x).1) same_found,
      )

  found-other :
      (f : Frame) (o : Option (StreamingDecoder Z Frame)) (ds : Decoders zcbor size fresh) (a : ℕ)
      → (a == get_source f.id) ≡ false
      → (handle_found zcbor size fresh f o ds).1 a ≡ ds a
  unfolding handle_found store
  found-other f none ds a h = refl
  found-other f (some d) ds a h = rw (h) refl

  handle-other :
      (f : Frame) (ds : Decoders zcbor size fresh) (a : ℕ)
      → (get_source f.id == a) ≡ false
      → (handle zcbor size fresh f ds).1 a ≡ ds a
  unfolding handle
  handle-other f ds a h =
      found-other f (find_decoder zcbor size fresh f (get_source f.id) ds) ds a (ground arith)

  deliver-other :
      (b a : ℕ) (r : Option (StreamingDecoder Z Frame)) (rest : List (ℕ × StreamingDecoder Z Frame))
      → (b == a) ≡ false
      → delivered_by a (deliver b r rest) ≡ delivered_by a rest
  unfolding delivered_by deliver
  deliver-other b a none rest h = refl
  deliver-other b a (some d) rest h = rw (h) refl

  deliver-own :
      (b a : ℕ) (r : Option (StreamingDecoder Z Frame)) (rest : List (ℕ × StreamingDecoder Z Frame))
      → (b == a) ≡ true
      → delivered_by a (deliver b r rest) ≡ also r (delivered_by a rest)
  unfolding delivered_by deliver also
  deliver-own b a none rest h = refl
  deliver-own b a (some d) rest h = rw (h) refl

  -- One sender's deliveries depend on its own frames, however others' are interleaved with them.
  pub handle_each-apart :
      (a : ℕ) (fs : List Frame) (ds : Decoders zcbor size fresh)
      (o : Option (StreamingDecoder Z Frame))
      → ds a ≡ o
      → delivered_by a (handle_each fs ds) ≡ receive_each (frames_of a fs) o
  unfolding handle_each frames_of receive_each delivered_by
  handle_each-apart a [] ds o e = refl
  handle_each-apart a (f ∷ fs) ds o e =
      let (ready, ds') = handle zcbor size fresh f ds in
      let rest = handle_each fs ds' in
      elim (Bool-cases (get_source f.id == a)) [
        | inr other ↦ rw (other) (
            deliver-other (get_source f.id) a ready rest other
            ∙ handle_each-apart a fs ds' o (handle-other f ds a other ∙ e))
        | inl own ↦
            let is : get_source f.id ≡ a = ground arith in
            let (same_ready, next) = handle-own f ds o (ap ds is ∙ e) in
            rw (own) (
              deliver-own (get_source f.id) a ready rest own
              ∙ ap (λ r. also r (delivered_by a rest)) same_ready
              ∙ ap (also (receive f o).0)
                  (handle_each-apart a fs ds' (receive f o).1 (ap ds' (sym is) ∙ next)))
      ]
