-- ===== src/Server/Branches.antt =====
-- What the handlers of src/ThingSetServer.cpp answer.
use thingsetplusplus.Prelude.{
  ℕ, ◌<◌, ◌≡◌, refl, inl, inr, Bool, true, false, not, ◌&&◌, List, Option, none, some, ◌==◌,
  if◌then◌else◌, Bool-cases,
}
use thingsetplusplus.LinkedList.{Ptr}
use thingsetplusplus.Node.{decodable}
use thingsetplusplus.Outcome.{Outcome, done}
use thingsetplusplus.RequestContext.{
  Status, Request, has_valid_endpoint, is_to_be_forwarded, bad_request, forbidden, not_found,
  get_header_length,
}
use thingsetplusplus.Server.State.{will_write, did_write, set_status, ℤ, pos}
use thingsetplusplus.Server.Calls.{Server, W, casts, fail}
use thingsetplusplus.Server.Handlers.{
  is_read_only, refuse, write_node, handle_node_update, find_endpoint, find_node, handle_found,
  handle_request, handle_node,
}
use thingsetplusplus.Registry.{bucket_of}
use thingsetplusplus.Registry.Lookup.{first}
use thingsetplusplus.Registry.Invariant.{Holds, total}
use thingsetplusplus.Registry.Invariant.Find.{find_by_id-first}

module _ {E D S : Type 0} (s : Server E D S) where
  -- Whether a write goes ahead: the rights, the type of the node, the parent's answer and the decoder's,
  -- each in the state that the step before it leaves.
  abbrev pub asked : (parent child : Ptr) → W s → Bool × S
  asked parent child w = s.app.invoke_callback parent child will_write w.app

  abbrev pub written : (parent child : Ptr) → W s → Bool × D × S
  written parent child w = s.app.decode child w.decoder (asked parent child w).1

  abbrev pub is_writable : (child : Ptr) → Bool
  is_writable child = not (is_read_only s child) && casts s child decodable

  -- The status that a refused write leaves.
  abbrev pub refusal : (parent child : Ptr) → W s → Status
  refusal parent child w =
      if is_read_only s child
      then forbidden
      else if not (casts s child decodable)
      then bad_request
      else if not (asked parent child w).0
      then forbidden
      else bad_request

  -- The application's state that a write leaves.
  abbrev pub effect : (parent child : Ptr) → W s → S
  effect parent child w =
      if not (is_writable child)
      then w.app
      else if not (asked parent child w).0
      then (asked parent child w).1
      else if not (written parent child w).0
      then (written parent child w).2
      else (s.app.invoke_callback parent child did_write (written parent child w).2).1

  -- Handling the update of one node always ends. It succeeds exactly if the node shares a write right
  -- with the server, is decodable, its parent agrees and its value is decoded; then the status stays as
  -- it was, and the parent is told. Otherwise the status is that of the first step that failed, nothing
  -- after that step is done, and the encoder is left as it was in any case.
  pub handle_node_update_lem :
      (parent child : Ptr) (w : W s)
      → (ok : Bool) × (v : W s) × (handle_node_update s parent child w ≡ done (ok, v))
        × (ok ≡ (is_writable child && ((asked parent child w).0 && (written parent child w).0)))
        × (v.status ≡ (if ok then w.status else some (refusal parent child w)))
        × (v.app ≡ effect parent child w)
        × (v.encoder ≡ w.encoder)
  unfolding handle_node_update refuse write_node set_status
  handle_node_update_lem parent child w = elim (Bool-cases (is_read_only s child)) [
    | inl a ↦ rw (a) (false, _, refl, refl, refl, refl, refl)
    | inr a ↦ elim (Bool-cases (casts s child decodable)) [
      | inr b ↦ rw (a, b) (false, _, refl, refl, refl, refl, refl)
      | inl b ↦ elim (Bool-cases (asked parent child w).0) [
        | inr c ↦ rw (a, b, c) (false, _, refl, refl, refl, refl, refl)
        | inl c ↦ elim (Bool-cases (written parent child w).0) [
          | inr d ↦ rw (a, b, c, d) (false, _, refl, refl, refl, refl, refl)
          | inl d ↦ rw (a, b, c, d) (true, _, refl, refl, refl, refl, refl)
        ]
      ]
    ]
  ]

  -- What a request leads to, for the node that is found: without one, the status `not_found` in a response that is
  -- only the header, and everything else as it was; with one, what the handling of that node leads to.
  abbrev pub IsAnswered : Request → W s → Option Ptr → Outcome (ℤ × W s) → Type 0
  IsAnswered q w none run =
      run ≡ done (pos (get_header_length q.format), record w { status = some not_found })
  IsAnswered q w (some node) run = run ≡ handle_node s q node w

  handle_found-IsAnswered :
      (q : Request) (w : W s) (o : Option Ptr) → IsAnswered q w o (handle_found s q o w)
  unfolding handle_found fail set_status
  handle_found-IsAnswered q w none = refl
  handle_found-IsAnswered q w (some node) = refl

  handle_request-first :
      (q : Request) (id : ℕ) (bs : ℕ → List Ptr) (w : W s)
      → q.id ≡ some id
      → is_to_be_forwarded q ≡ false
      → Holds s.info s.registry bs
      → total bs < s.steps
      → handle_request s q w
        ≡ handle_found s q (first (λ n. (s.info n).id == id) (bs (bucket_of id))) w
  unfolding handle_request find_node find_endpoint has_valid_endpoint
  handle_request-first q id bs w named local holds enough =
      let e = find_by_id-first s.info s.steps s.registry bs holds enough id in
      rw (named, local, e) refl

  -- A request for an ID, not to be forwarded, always finds its node, if the registry is in order and the
  -- number of steps exceeds that of its nodes: what is handled is the first node with that ID, in order
  -- of registration. Without one the status is `not_found`, the response is only the header, and the
  -- application, the encoder and the decoder are left as they were.
  pub handle_request-by_id :
      (q : Request) (id : ℕ) (bs : ℕ → List Ptr) (w : W s)
      → q.id ≡ some id
      → is_to_be_forwarded q ≡ false
      → Holds s.info s.registry bs
      → total bs < s.steps
      → IsAnswered q w (first (λ n. (s.info n).id == id) (bs (bucket_of id))) (handle_request s q w)
  handle_request-by_id q id bs w named local holds enough =
      rw (handle_request-first q id bs w named local holds enough)
        (handle_found-IsAnswered q w (first (λ n. (s.info n).id == id) (bs (bucket_of id))))
