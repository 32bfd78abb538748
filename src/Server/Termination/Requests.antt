-- ===== src/Server/Termination/Requests.antt =====
-- `handleRequest` of src/ThingSetServer.cpp as a whole.
use thingsetplusplus.Prelude.{
  ℕ, ◌<◌, ◌≤◌, ◌≡◌, refl, true, false, not, Option, none, some, ◌==◌, bit_and, arith, length,
}
use thingsetplusplus.Bytes.{Bytes}
use thingsetplusplus.Command.{Cmd, lift}
use thingsetplusplus.LinkedList.{Ptr}
use thingsetplusplus.Node.{decodable, has_children, function, request_handler, no_access}
use thingsetplusplus.Outcome.{done}
use thingsetplusplus.ParentNode.{find_by_name}
use thingsetplusplus.RequestContext.{
  Request, get, exec, fetch, update, is_type, has_valid_endpoint, is_to_be_forwarded, changed,
  bad_request, forbidden, not_found, not_implemented, not_a_gateway, get_header_length,
}
use thingsetplusplus.Server.State.{will_write, did_write, ℤ, pos, is_zero}
use thingsetplusplus.Server.Calls.{Server, W, casts, as_int}
use thingsetplusplus.Server.Handlers.{
  is_read_only, write_node, handle_node_update, update_found, update_entry, handle_update, invoke,
  found_node, run_function, handle_exec, dispatch, custom, handle_node, find_endpoint, find_node,
  handle_found, forward_with, forward_request, handle_request,
}
use thingsetplusplus.Server.Termination.{
  InOrder, Consumes, Ends, bind, returns, choose, branch, lifted, set_status-Ends, fail-Ends,
  reply-Ends, refuse-Ends, on_encoder-Ends, decode-Ends, invoke_callback-Ends,
}
use thingsetplusplus.ParentNode.Termination.{find_by_name-ends}
use thingsetplusplus.Server.Termination.Loops.{Short, decode_map-Ends}
use thingsetplusplus.Server.Termination.Handlers.{
  find_by_id-Ends, handle_fetch-Ends, handle_get-Ends,
}

-- Decoding a value into a node, and passing arguments to a function, leave no more of the payload.
pub record Objects {E D S : Type 0} (s : Server E D S) (remaining : D → ℕ) : Type 0 where
  pub decode_keeps : (n : Ptr) (d : D) (a : S) → remaining (s.app.decode n d a).1 ≤ remaining d
  pub invoke_keeps :
      (n : Ptr) (d : D) (e : E) (a : S) → remaining (s.app.invoke n d e a).1 ≤ remaining d
  pub custom_keeps :
      (n : Ptr) (q : Request) (w : W s)
      → remaining (s.app.handle_request n q w).1.decoder ≤ remaining w.decoder

module _ {E D S : Type 0} (s : Server E D S) (remaining : D → ℕ) (bound : ℕ)
    (consumes : Consumes s.dec remaining) (order : InOrder s) (objects : Objects s remaining)
    (steps : bound ≤ s.steps) (levels : bound ≤ s.levels) where
  abbrev R : {A : Type 0} → Cmd (W s) A → Type 0
  R m = Ends remaining bound m

  write_node-Ends : (parent child : Ptr) → R (write_node s parent child)
  unfolding write_node
  write_node-Ends parent child =
      bind remaining bound (decode-Ends s remaining bound objects.decode_keeps child) λ ok.
        choose remaining bound ok
          (bind remaining bound (invoke_callback-Ends s remaining bound parent child did_write)
            λ _. returns remaining bound true)
          (refuse-Ends s remaining bound bad_request)

  handle_node_update-Ends : (parent child : Ptr) → R (handle_node_update s parent child)
  unfolding handle_node_update
  handle_node_update-Ends parent child =
      branch remaining bound (is_read_only s child) (refuse-Ends s remaining bound forbidden) (
        branch remaining bound (not (casts s child decodable))
          (refuse-Ends s remaining bound bad_request)
          (bind remaining bound (invoke_callback-Ends s remaining bound parent child will_write)
            λ granted.
              choose remaining bound granted (write_node-Ends parent child)
                (refuse-Ends s remaining bound forbidden)))

  update_found-Ends : (parent : Ptr) (n : Option Ptr) → R (update_found s parent n)
  unfolding update_found
  update_found-Ends parent none = refuse-Ends s remaining bound not_found
  update_found-Ends parent (some child) = handle_node_update-Ends parent child

  find_by_name-Ends :
      (p : Ptr) (name : Bytes)
      → length name < bound
      → R (lift (find_by_name s.info s.array_size s.registry s.steps s.levels p name))
  find_by_name-Ends p name short = lifted remaining bound _ (
      find_by_name-ends s.info s.array_size s.registry s.steps order.kids order.lists
        order.kids_enough s.levels p name (omega arith))

  update_entry-Ends :
      (parent : Ptr) (id : Option ℕ) (name : Option Bytes)
      → Short s remaining bound consumes name
      → R (update_entry s parent id name)
  unfolding update_entry
  update_entry-Ends parent (some id) name short =
      bind remaining bound (find_by_id-Ends s remaining bound consumes order id)
        (update_found-Ends parent)
  update_entry-Ends parent none (some name) short =
      bind remaining bound (find_by_name-Ends parent name short)
        λ f. update_found-Ends parent (found_node s f)
  update_entry-Ends parent none none short = returns remaining bound false

  handle_update-Ends : (q : Request) (n : Ptr) → R (handle_update s q n)
  unfolding handle_update
  handle_update-Ends q n =
      branch remaining bound (casts s n has_children)
        (bind remaining bound (set_status-Ends remaining bound changed) λ _.
          bind remaining bound (on_encoder-Ends s remaining bound s.enc.encode_preamble) λ _.
            bind remaining bound
              (decode_map-Ends s remaining bound consumes _ steps (update_entry-Ends n))
              λ ok.
                choose remaining bound ok
                  (bind remaining bound (on_encoder-Ends s remaining bound s.enc.encode_preamble)
                    λ _. reply-Ends s remaining bound q)
                  (returns remaining bound (get_header_length q.format)))
        (fail-Ends s remaining bound q bad_request)

  invoke-Ends : (n : Ptr) → R (invoke s n)
  invoke-Ends n = record {
    runs = λ w h. (_, _, refl, objects.invoke_keeps n w.decoder w.encoder w.app);
  }

  run_function-Ends : (q : Request) (n : Ptr) → R (run_function s q n)
  unfolding run_function
  run_function-Ends q n =
      bind remaining bound (on_encoder-Ends s remaining bound s.enc.encode_preamble) λ _.
        bind remaining bound (invoke-Ends n) λ ok.
          choose remaining bound ok
            (bind remaining bound (set_status-Ends remaining bound changed)
              λ _. reply-Ends s remaining bound q)
            (fail-Ends s remaining bound q bad_request)

  handle_exec-Ends : (q : Request) (n : Ptr) → R (handle_exec s q n)
  unfolding handle_exec
  handle_exec-Ends q n =
      branch remaining bound (bit_and (s.info n).access s.access == no_access)
        (fail-Ends s remaining bound q forbidden)
        (branch remaining bound (casts s n function) (run_function-Ends q n)
          (fail-Ends s remaining bound q bad_request))

  dispatch-Ends : (q : Request) (n : Ptr) → R (dispatch s q n)
  unfolding dispatch
  dispatch-Ends q n =
      branch remaining bound (is_type get q) (handle_get-Ends s remaining bound consumes order q n)
        (branch remaining bound (is_type fetch q)
          (handle_fetch-Ends s remaining bound consumes order steps q n)
          (branch remaining bound (is_type update q) (handle_update-Ends q n) (
            branch remaining bound (is_type exec q) (handle_exec-Ends q n)
              (fail-Ends s remaining bound q not_implemented))))

  as_int-Ends : {m : Cmd (W s) ℕ} → R m → R (as_int s m)
  as_int-Ends ends = bind remaining bound ends λ size. returns remaining bound (pos size)

  custom-Ends : (q : Request) (n : Ptr) → R (custom s n q)
  custom-Ends q n = record { runs = λ w h. (_, _, refl, objects.custom_keeps n q w) }

  handle_node-Ends : (q : Request) (n : Ptr) → R (handle_node s q n)
  unfolding handle_node
  handle_node-Ends q n =
      branch remaining bound (casts s n request_handler)
        (bind remaining bound (custom-Ends q n) λ result.
          branch remaining bound (is_zero result) (as_int-Ends (dispatch-Ends q n))
            (returns remaining bound result))
        (as_int-Ends (dispatch-Ends q n))

  handle_found-Ends : (q : Request) (n : Option Ptr) → R (handle_found s q n)
  unfolding handle_found
  handle_found-Ends q none = as_int-Ends (fail-Ends s remaining bound q not_found)
  handle_found-Ends q (some n) = handle_node-Ends q n

  find_endpoint-Ends :
      (id : Option ℕ) (path : Option Bytes)
      → Short s remaining bound consumes path
      → R (find_endpoint s id path)
  unfolding find_endpoint
  find_endpoint-Ends (some id) path short = find_by_id-Ends s remaining bound consumes order id
  find_endpoint-Ends none (some path) short =
      bind remaining bound (find_by_name-Ends s.root path short)
        λ f. returns remaining bound (found_node s f)
  find_endpoint-Ends none none short = returns remaining bound none

  forward_with-Ends :
      (f : Option (Request → Cmd (W s) ℤ))
      → ((h : Request → Cmd (W s) ℤ) → f ≡ some h → (q : Request) → R (h q))
      → (q : Request) → R (forward_with s f q)
  unfolding forward_with
  forward_with-Ends (some h) ends q = ends h refl q
  forward_with-Ends none ends q = as_int-Ends (fail-Ends s remaining bound q not_a_gateway)

  handle_request-Ends :
      ((h : Request → Cmd (W s) ℤ) → s.forwarder ≡ some h → (q : Request) → R (h q))
      → (q : Request) → Short s remaining bound consumes q.path
      → R (handle_request s q)
  unfolding handle_request find_node forward_request
  handle_request-Ends forwards q short =
      branch remaining bound (not (has_valid_endpoint q))
        (as_int-Ends (fail-Ends s remaining bound q bad_request))
        (branch remaining bound (is_to_be_forwarded q) (forward_with-Ends s.forwarder forwards q)
          (bind remaining bound (find_endpoint-Ends q.id q.path short) (handle_found-Ends q)))

  -- Every request is answered: the run ends, and yields a result: the length of a response, or whatever the
  -- custom handler or the forwarder returns. Needed are: calls of
  -- the decoder that consume the payload they decode, and objects that leave no more of it than there was; a
  -- registry in order; a forwarder that ends; and a bound above the lengths of the payload and of the
  -- path, with at least as many steps and levels.
  pub handle_request-ends :
      ((h : Request → Cmd (W s) ℤ) → s.forwarder ≡ some h → (q : Request) → R (h q))
      → (q : Request) (w : W s) → Short s remaining bound consumes q.path
      → remaining w.decoder < bound
      → (result : ℤ) × (v : W s) × (handle_request s q w ≡ done (result, v))
  handle_request-ends forwards q w short h =
      let (result, v, e, le) = (handle_request-Ends forwards q short).runs w h in (result, v, e)
