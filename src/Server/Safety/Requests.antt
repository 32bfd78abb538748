-- ===== src/Server/Safety/Requests.antt =====
-- `handleRequest` of src/ThingSetServer.cpp as a whole.
use thingsetplusplus.Prelude.{ℕ, ◌≡◌, refl, inl, inr, true, not, Option, none, some, Bool-cases}
use thingsetplusplus.Bytes.{Bytes}
use thingsetplusplus.Command.{Cmd}
use thingsetplusplus.LinkedList.{Ptr}
use thingsetplusplus.Node.{request_handler}
use thingsetplusplus.ParentNode.{find_by_name}
use thingsetplusplus.Registry.{find_by_id}
use thingsetplusplus.RequestContext.{
  Request, get, exec, fetch, update, is_type, has_valid_endpoint, is_to_be_forwarded, bad_request,
  not_found, not_implemented, not_a_gateway,
}
use thingsetplusplus.Server.Calls.{Server, W, casts, as_int}
use thingsetplusplus.Server.State.{ℤ, pos, is_zero}
use thingsetplusplus.Server.Handlers.{
  found_node, dispatch, custom, handle_node, find_endpoint, find_node, handle_found, forward_with,
  forward_request, handle_request,
}
use thingsetplusplus.Server.Preserve.{
  Preserves, After, bind, branch, returns, lifted, fail-Preserves,
}
use thingsetplusplus.Server.Safety.{EncodeKeeps, CallbackKeeps, WriteKeeps, InvokeKeeps}
use thingsetplusplus.Server.Safety.Reading.{handle_fetch-Preserves, handle_get-Preserves}
use thingsetplusplus.Server.Safety.Writing.{handle_update-Preserves, handle_exec-Preserves}

module _ {E D S : Type 0} (s : Server E D S) (P : S → Type 0) (encodes : EncodeKeeps s P)
    (calls_back : CallbackKeeps s P) (writes : WriteKeeps s P) (invokes : InvokeKeeps s P) where
  dispatch-Preserves : (q : Request) (n : Ptr) → Preserves P (dispatch s q n)
  unfolding dispatch
  dispatch-Preserves q n = branch P (is_type get q) (handle_get-Preserves s P encodes q n) (
      branch P (is_type fetch q) (handle_fetch-Preserves s P q n) (
        branch P (is_type update q) (handle_update-Preserves s P calls_back writes q n) (
          branch P (is_type exec q) (handle_exec-Preserves s P calls_back invokes q n)
            (fail-Preserves s P q not_implemented))))

  as_int-Preserves : {m : Cmd (W s) ℕ} → Preserves P m → Preserves P (as_int s m)
  as_int-Preserves keep = bind P keep λ size. returns P (pos size)

  module _
      (customises : (q : Request) (n : Ptr)
        → casts s n request_handler ≡ true
        → Preserves P (custom s n q))
      (forwards : (h : Request → Cmd (W s) ℤ)
        → s.forwarder ≡ some h
        → (q : Request) → Preserves P (h q)) where
    handle_node-Preserves : (q : Request) (n : Ptr) → Preserves P (handle_node s q n)
    unfolding handle_node
    handle_node-Preserves q n = elim (Bool-cases (casts s n request_handler)) [
      | inl handles ↦ rw (handles) (
          bind P (customises q n handles) λ result.
            branch P (is_zero result) (as_int-Preserves (dispatch-Preserves q n))
              (returns P result))
      | inr other ↦ rw (other) (as_int-Preserves (dispatch-Preserves q n))
    ]

    find_endpoint-Preserves :
        (id : Option ℕ) (path : Option Bytes) → Preserves P (find_endpoint s id path)
    unfolding find_endpoint
    find_endpoint-Preserves (some id) path = lifted P (find_by_id s.info s.steps s.registry id)
    find_endpoint-Preserves none (some path) =
        bind P (lifted P (find_by_name s.info s.array_size s.registry s.steps s.levels s.root path))
          λ f. returns P (found_node s f)
    find_endpoint-Preserves none none = returns P none

    find_node-Preserves : (q : Request) → Preserves P (find_node s q)
    unfolding find_node
    find_node-Preserves q = find_endpoint-Preserves q.id q.path

    forward_with-Preserves :
        (f : Option (Request → Cmd (W s) ℤ))
        → ((h : Request → Cmd (W s) ℤ) → f ≡ some h → (q : Request) → Preserves P (h q))
        → (q : Request) → Preserves P (forward_with s f q)
    unfolding forward_with
    forward_with-Preserves (some h) keep q = keep h refl q
    forward_with-Preserves none keep q = as_int-Preserves (fail-Preserves s P q not_a_gateway)

    forward_request-Preserves : (q : Request) → Preserves P (forward_request s q)
    unfolding forward_request
    forward_request-Preserves q = forward_with-Preserves s.forwarder forwards q

    handle_found-Preserves : (q : Request) (n : Option Ptr) → Preserves P (handle_found s q n)
    unfolding handle_found
    handle_found-Preserves q none = as_int-Preserves (fail-Preserves s P q not_found)
    handle_found-Preserves q (some n) = handle_node-Preserves q n

    handle_request-Preserves : (q : Request) → Preserves P (handle_request s q)
    unfolding handle_request
    handle_request-Preserves q =
        branch P (not (has_valid_endpoint q)) (as_int-Preserves (fail-Preserves s P q bad_request))
          (branch P (is_to_be_forwarded q) (forward_request-Preserves q)
            (bind P (find_node-Preserves q) (handle_found-Preserves q)))

    -- Whatever the request, a property of the application's state that holds before it holds of the
    -- state it ends in, when: encoding a node's value keeps it; the callbacks keep it; decoding into a
    -- node keeps it where the node's access rights share a write right with the server's, the node is
    -- decodable and its parent's callback has just agreed; calling a function keeps it where the
    -- function's access rights share one with the server's; and the custom handlers and the forwarder
    -- keep it.
    pub handle_request-keeps : (q : Request) (w : W s) → P w.app → After P (handle_request s q w)
    handle_request-keeps q = (handle_request-Preserves q).keeps
