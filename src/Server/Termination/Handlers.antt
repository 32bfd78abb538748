-- ===== src/Server/Termination/Handlers.antt =====
-- The handlers of src/ThingSetServer.cpp but for the calls of custom handlers and functions.
use thingsetplusplus.Prelude.{
  ℕ, ◌≤◌, refl, ap, Option-cases, inl, inr, Bool, true, false, ◌&&◌, List, [], ◌∷◌, Option, none,
  some, ◌==◌, arith, length,
}
use thingsetplusplus.Command.{Cmd, ◌>>=◌, lift}
use thingsetplusplus.LinkedList.{Ptr}
use thingsetplusplus.Node.{encodable, has_children}
use thingsetplusplus.Outcome.{walk}
use thingsetplusplus.Registry.{find_by_id}
use thingsetplusplus.RequestContext.{
  Request, use_ids, content, bad_request, not_found, unsupported_format,
}
use thingsetplusplus.Server.Calls.{Server, W, on_encoder, on_decoder, children, casts}
use thingsetplusplus.Server.Handlers.{
  encode_key, encode_pair, encode_keys_loop, encode_keys, encodables, encode_pairs, get_value,
  get_children, handle_get, fetch_names, encode_metadata, encode_metadata_found, fetch_metadata_of,
  fetch_metadata, handle_fetch, is_list,
}
use thingsetplusplus.Server.Termination.{
  InOrder, Consumes, Ends, bind, returns, reads, choose, branch, both, lifted, set_status-Ends,
  fail-Ends, reply-Ends, on_encoder-Ends, on_decoder-Ends, encode-Ends,
}
use thingsetplusplus.LinkedList.Walk.{walk_lem}
use thingsetplusplus.Registry.Invariant.Find.{find_by_id-first}
use thingsetplusplus.Server.Termination.Loops.{Advances, decode_list-Ends}

module _ {E D S : Type 0} (s : Server E D S) (remaining : D → ℕ) (bound : ℕ)
    (consumes : Consumes s.dec remaining) (order : InOrder s) where
  abbrev R : {A : Type 0} → Cmd (W s) A → Type 0
  R m = Ends remaining bound m

  on : (f : E → Bool × E) → R (on_encoder s f)
  on = on_encoder-Ends s remaining bound

  pub find_by_id-Ends : (id : ℕ) → R (lift (find_by_id s.info s.steps s.registry id))
  find_by_id-Ends id =
      lifted remaining bound _
        (_, find_by_id-first s.info s.steps s.registry order.bs order.holds order.enough id)

  children-Ends : (n : Ptr) → R (children s n)
  children-Ends n =
      let (e, f) =
        walk_lem s.steps (s.registry.children n, s.registry.child_links) (order.kids n)
          (order.lists n) (order.kids_enough n) in
      lifted remaining bound _ (order.kids n, ap walk e)

  encode_key-Ends : (ids : Bool) (n : Ptr) → R (encode_key s ids n)
  unfolding encode_key
  encode_key-Ends ids n =
      branch remaining bound ids (on (s.enc.encode_number (s.info n).id))
        (on (s.enc.encode_string (s.info n).name))

  encode_keys_loop-Ends : (ids : Bool) (ns : List Ptr) → R (encode_keys_loop s ids ns)
  unfolding encode_keys_loop
  encode_keys_loop-Ends ids [] = returns remaining bound true
  encode_keys_loop-Ends ids (n ∷ ns) =
      both remaining bound (encode_key-Ends ids n) (encode_keys_loop-Ends ids ns)

  encode_keys-Ends : (ids : Bool) (ns : List Ptr) → R (encode_keys s ids ns)
  unfolding encode_keys
  encode_keys-Ends ids ns =
      both remaining bound (on (s.enc.encode_list_start (length ns))) (
        both remaining bound (encode_keys_loop-Ends ids ns)
          (on (s.enc.encode_list_end (length ns))))

  fetch_names-Ends : (q : Request) (n : Ptr) → R (fetch_names s q n)
  unfolding fetch_names
  fetch_names-Ends q n =
      branch remaining bound (casts s n has_children)
        (bind remaining bound (children-Ends n) λ nodes.
          bind remaining bound (encode_keys-Ends (use_ids q) nodes)
            λ ok. reply-Ends s remaining bound q)
        (fail-Ends s remaining bound q bad_request)

  encode_metadata-Ends : (n : Ptr) → R (encode_metadata s n)
  unfolding encode_metadata
  encode_metadata-Ends n = both remaining bound (on s.enc.encode_open_map_start) (
      both remaining bound (on (s.enc.encode_number 0x1a)) (
        both remaining bound (on (s.enc.encode_string (s.info n).name)) (
          both remaining bound (on (s.enc.encode_number 0x1b)) (
            both remaining bound (on (s.enc.encode_string (s.app.get_type n))) (
              both remaining bound (on (s.enc.encode_number 0x1c)) (
                both remaining bound (on (s.enc.encode_number (s.info n).access))
                  (on s.enc.encode_open_map_end)))))))

  encode_metadata_found-Ends : (n : Option Ptr) → R (encode_metadata_found s n)
  unfolding encode_metadata_found
  encode_metadata_found-Ends none = returns remaining bound false
  encode_metadata_found-Ends (some n) = encode_metadata-Ends n

  fetch_metadata_of-Ends : (i : Option ℕ) → R (fetch_metadata_of s i)
  unfolding fetch_metadata_of
  fetch_metadata_of-Ends none = returns remaining bound false
  fetch_metadata_of-Ends (some id) =
      bind remaining bound (find_by_id-Ends id) encode_metadata_found-Ends

  -- The callback of the list of IDs consumes what it decodes, or it fails.
  listed-Advances :
      Advances s remaining bound consumes
        (do id ← on_decoder s s.dec.decode_number; fetch_metadata_of s id)
  unfolding fetch_metadata_of
  listed-Advances w h = elim (Option-cases (s.dec.decode_number w.decoder).0) [
    | inl e ↦ rw (e) (false, _, refl, consumes.number_keeps w.decoder, λ f. absurd (cc))
    | inr (id, e) ↦
        let shrinks = consumes.number_shrinks w.decoder id e in
        let (b, v, f, le) =
          (fetch_metadata_of-Ends (some id)).runs
            (record w { decoder = (s.dec.decode_number w.decoder).1 }) (omega arith) in
        rw (e, f) (b, v, refl, omega arith, λ _. omega arith)
  ]

  fetch_metadata-Ends : bound ≤ s.steps → (q : Request) → R (fetch_metadata s q)
  unfolding fetch_metadata
  fetch_metadata-Ends enough q =
      bind remaining bound
        (both remaining bound
          (decode_list-Ends s remaining bound consumes _ enough (λ index. listed-Advances))
          (on s.enc.encode_open_list_end))
        λ ok.
          choose remaining bound ok (reply-Ends s remaining bound q)
            (fail-Ends s remaining bound q not_found)

  pub handle_fetch-Ends : bound ≤ s.steps → (q : Request) (n : Ptr) → R (handle_fetch s q n)
  unfolding handle_fetch
  handle_fetch-Ends enough q n = bind remaining bound (set_status-Ends remaining bound content) λ _.
      bind remaining bound (on s.enc.encode_preamble) λ _.
        bind remaining bound
          (on_decoder-Ends s remaining bound s.dec.decode_null consumes.null_keeps)
          λ null. choose remaining bound null (fetch_names-Ends q n) (
            bind remaining bound (reads remaining bound (λ w. is_list (s.dec.peek_type w.decoder)))
              λ listed.
                bind remaining bound
                  (branch remaining bound (n == s.metadata && listed)
                    (on s.enc.encode_open_list_start) (returns remaining bound false))
                  λ started.
                    choose remaining bound started (fetch_metadata-Ends enough q)
                      (fail-Ends s remaining bound q bad_request))

  encode_pair-Ends : (ids : Bool) (n : Ptr) → R (encode_pair s ids n)
  unfolding encode_pair
  encode_pair-Ends ids n = both remaining bound (encode_key-Ends ids n) (
      both remaining bound (on s.enc.encode_key_value_pair_separator)
        (both remaining bound (encode-Ends s remaining bound n) (on s.enc.encode_list_separator)))

  encode_pairs-Ends : (ids : Bool) (ns : List Ptr) → R (encode_pairs s ids ns)
  unfolding encode_pairs
  encode_pairs-Ends ids [] = returns remaining bound tt
  encode_pairs-Ends ids (n ∷ ns) =
      bind remaining bound (encode_pair-Ends ids n) λ ok. encode_pairs-Ends ids ns

  get_value-Ends : (q : Request) (n : Ptr) → R (get_value s q n)
  unfolding get_value
  get_value-Ends q n = bind remaining bound (encode-Ends s remaining bound n) λ ok.
      choose remaining bound ok (reply-Ends s remaining bound q)
        (fail-Ends s remaining bound q unsupported_format)

  get_children-Ends : (q : Request) (n : Ptr) → R (get_children s q n)
  unfolding get_children
  get_children-Ends q n = bind remaining bound (children-Ends n) λ nodes.
      bind remaining bound (on (s.enc.encode_map_start (length (encodables s nodes)))) λ _.
        bind remaining bound (encode_pairs-Ends (use_ids q) (encodables s nodes)) λ _.
          bind remaining bound (on (s.enc.encode_map_end (length (encodables s nodes))))
            λ _. reply-Ends s remaining bound q

  pub handle_get-Ends : (q : Request) (n : Ptr) → R (handle_get s q n)
  unfolding handle_get
  handle_get-Ends q n = bind remaining bound (set_status-Ends remaining bound content) λ _.
      bind remaining bound (on s.enc.encode_preamble) λ _.
        branch remaining bound (casts s n encodable) (get_value-Ends q n) (
          branch remaining bound (casts s n has_children) (get_children-Ends q n)
            (fail-Ends s remaining bound q unsupported_format))
