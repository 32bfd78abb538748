-- ===== src/Server/Termination.antt =====
-- That the handling of a request in src/ThingSetServer.cpp ends: the loops over the payload are bounded
-- by what is left of it, the walks by the registry's lists.
mod Loops
mod Handlers
pub mod Requests
use thingsetplusplus.Prelude.{
  ℕ, zero, suc, ◌+◌, ◌<◌, ◌≤◌, ◌≡◌, ◌≢◌, refl, ap, ◌∙◌, sym, ◌||◌, Option-cases, inl, inr, Bool,
  true, false, not, ◌&&◌, List, [], ◌∷◌, Option, none, some, ◌==◌, bit_and, arith, if◌then◌else◌,
  Bool-cases, length,
}
use thingsetplusplus.Bytes.{Bytes}
use thingsetplusplus.Command.{Cmd, pure, ◌>>=◌, ◌>>◌, also, lift, read}
use thingsetplusplus.LinkedList.{Ptr}
use thingsetplusplus.Node.{encodable, decodable, has_children, function, request_handler, no_access}
use thingsetplusplus.Outcome.{Outcome, done, aborted, out_of_fuel}
use thingsetplusplus.ParentNode.{Found, find_by_name}
use thingsetplusplus.Registry.{find_by_id}
use thingsetplusplus.RequestContext.{
  Status, Request, get, exec, fetch, update, is_type, has_valid_endpoint, is_to_be_forwarded,
  use_ids, changed, content, bad_request, forbidden, not_found, unsupported_format, not_implemented,
  not_a_gateway, get_header_length,
}
use thingsetplusplus.Server.State.{World, CallbackReason, will_write, did_write, set_status}
use thingsetplusplus.Server.Calls.{
  Server, W, on_encoder, on_decoder, encode, decode, invoke_callback, children, casts, decode_items,
  decode_list, take_string, take_number, decode_key, decode_entries, decode_map, fail, reply,
}
use thingsetplusplus.Server.Handlers.{
  encode_key, encode_pair, encode_keys_loop, encode_keys, encodables, encode_pairs, get_value,
  get_children, handle_get, fetch_names, encode_metadata, encode_metadata_found, fetch_metadata_of,
  fetch_metadata, handle_fetch, is_list, is_read_only, refuse, write_node, handle_node_update,
  update_found, update_entry, handle_update, invoke, found_node, run_function, handle_exec,
  dispatch, custom, handle_node, find_endpoint, find_node, handle_found, forward_with,
  forward_request, handle_request,
}
use thingsetplusplus.LinkedList.Segment.{IsList}
use thingsetplusplus.Registry.Invariant.{Holds, total}
use thingsetplusplus.Coding.{Encoder, Decoder, EncodedNodeType, list}

-- What the loops rely on: a measure of the rest of the payload that no call of the decoder makes longer,
-- and that a decoded number or string makes shorter, a string by its length at least.
pub record Consumes {D : Type 0} (dec : Decoder D) (remaining : D → ℕ) : Type 0 where
  pub number_shrinks :
      (d : D) (n : ℕ)
      → (dec.decode_number d).0 ≡ some n
      → remaining (dec.decode_number d).1 < remaining d
  pub number_keeps : (d : D) → remaining (dec.decode_number d).1 ≤ remaining d
  pub string_shrinks :
      (d : D) (key : Bytes)
      → (dec.decode_string d).0 ≡ some key
      → (remaining (dec.decode_string d).1 < remaining d) × (length key ≤ remaining d)
  pub string_keeps : (d : D) → remaining (dec.decode_string d).1 ≤ remaining d
  pub null_keeps : (d : D) → remaining (dec.decode_null d).1 ≤ remaining d
  pub list_start_keeps : (d : D) → remaining (dec.decode_list_start d).1 ≤ remaining d
  pub list_end_keeps : (d : D) → remaining (dec.decode_list_end d).1 ≤ remaining d
  pub map_start_keeps : (d : D) → remaining (dec.decode_map_start d).1 ≤ remaining d
  pub map_end_keeps : (d : D) → remaining (dec.decode_map_end d).1 ≤ remaining d

-- The registry is in order: the lists of its buckets and of the children of each node, and each walk has
-- more steps than there are nodes to visit.
pub record InOrder {E D S : Type 0} (s : Server E D S) : Type 0 where
  pub bs : ℕ → List Ptr
  pub holds : Holds s.info s.registry bs
  pub enough : total bs < s.steps
  pub kids : Ptr → List Ptr
  pub lists : (p : Ptr) → IsList (s.registry.children p, s.registry.child_links) (kids p)
  pub kids_enough : (p : Ptr) → length (kids p) < s.steps

module _ {E D S : Type 0} (remaining : D → ℕ) (bound : ℕ) where
  -- A run that ends, with no more of the payload left than `k`.
  abbrev pub EndsWithin : {A : Type 0} → ℕ → Outcome (A × World E D S) → Type 0
  EndsWithin {A} k o = (a : A) × (v : World E D S) × (o ≡ done (a, v)) × (remaining v.decoder ≤ k)

  -- A command that ends so whenever less than `bound` is left of the payload.
  pub record Ends {A : Type 0} (m : Cmd (World E D S) A) : Type 0 where
    pub runs :
        (w : World E D S) → remaining w.decoder < bound → EndsWithin (remaining w.decoder) (m w)

  pub bind :
      {A B : Type 0} {m : Cmd (World E D S) A} {k : A → Cmd (World E D S) B}
      → Ends m
      → ((a : A) → Ends (k a))
      → Ends (m >>= k)
  bind {m} {k} first next = record {
    runs = λ w h.
        let (a, v, e, le) = first.runs w h in
        let (b, u, f, le') = (next a).runs v (omega arith) in rw (e, f) (b, u, refl, omega arith);
  }

  pub returns : {A : Type 0} (a : A) → Ends (pure a)
  returns a = record { runs = λ w h. (a, w, refl, omega arith) }

  pub reads : {A : Type 0} (f : World E D S → A) → Ends (read f)
  reads f = record { runs = λ w h. (f w, w, refl, omega arith) }

  pub choose :
      {A : Type 0} (b : Bool) {m n : Cmd (World E D S) A}
      → Ends m
      → Ends n
      → Ends (elim b [ true ↦ m | false ↦ n ])
  choose true pm pn = pm
  choose false pm pn = pn

  pub branch :
      {A : Type 0} (b : Bool) {m n : Cmd (World E D S) A}
      → Ends m
      → Ends n
      → Ends (if b then m else n)
  branch true pm pn = pm
  branch false pm pn = pn

  pub both : {m n : Cmd (World E D S) Bool} → Ends m → Ends n → Ends (also m n)
  both pm pn = bind pm (λ b. choose b pn (returns false))

  pub lifted : {A : Type 0} (o : Outcome A) → (a : A) × (o ≡ done a) → Ends (lift o)
  lifted o (a, e) = record { runs = λ w h. rw (e) (a, w, refl, omega arith) }

  pub set_status-Ends : (status : Status) → Ends (set_status status)
  unfolding set_status
  set_status-Ends status = record { runs = λ w h. (tt, _, refl, omega arith) }

module _ {E D S : Type 0} (s : Server E D S) (remaining : D → ℕ) (bound : ℕ) where
  pub fail-Ends : (q : Request) (status : Status) → Ends remaining bound (fail s q status)
  unfolding fail
  fail-Ends q status = record { runs = λ w h. (_, _, refl, omega arith) }

  pub reply-Ends : (q : Request) → Ends remaining bound (reply s q)
  unfolding reply
  reply-Ends q = record { runs = λ w h. (_, _, refl, omega arith) }

  pub refuse-Ends : (status : Status) → Ends remaining bound (refuse s status)
  unfolding refuse set_status
  refuse-Ends status = record { runs = λ w h. (_, _, refl, omega arith) }

  pub on_encoder-Ends : {A : Type 0} (f : E → A × E) → Ends remaining bound (on_encoder s f)
  on_encoder-Ends f = record { runs = λ w h. (_, _, refl, omega arith) }

  pub on_decoder-Ends :
      {A : Type 0} (f : D → A × D)
      → ((d : D) → remaining (f d).1 ≤ remaining d)
      → Ends remaining bound (on_decoder s f)
  on_decoder-Ends f keep = record { runs = λ w h. (_, _, refl, keep w.decoder) }

  pub encode-Ends : (n : Ptr) → Ends remaining bound (encode s n)
  encode-Ends n = record { runs = λ w h. (_, _, refl, omega arith) }

  pub decode-Ends :
      ((n : Ptr) (d : D) (a : S) → remaining (s.app.decode n d a).1 ≤ remaining d)
      → (n : Ptr) → Ends remaining bound (decode s n)
  decode-Ends keep n = record { runs = λ w h. (_, _, refl, keep n w.decoder w.app) }

  pub invoke_callback-Ends :
      (p n : Ptr) (why : CallbackReason) → Ends remaining bound (invoke_callback s p n why)
  invoke_callback-Ends p n why = record { runs = λ w h. (_, _, refl, omega arith) }
