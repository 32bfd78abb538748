-- ===== src/Server/Safety/Writing.antt =====
-- The handlers of src/ThingSetServer.cpp that decode into nodes and call functions.
use thingsetplusplus.Prelude.{
  ℕ, ◌≡◌, inl, inr, true, false, Option, none, some, ◌==◌, bit_and, Bool-cases,
}
use thingsetplusplus.Bytes.{Bytes}
use thingsetplusplus.Command.{◌>>=◌}
use thingsetplusplus.LinkedList.{Ptr}
use thingsetplusplus.Node.{decodable, has_children, function, no_access}
use thingsetplusplus.ParentNode.{find_by_name}
use thingsetplusplus.Registry.{find_by_id}
use thingsetplusplus.RequestContext.{
  Status, Request, changed, bad_request, forbidden, not_found, get_header_length,
}
use thingsetplusplus.Server.State.{will_write, did_write}
use thingsetplusplus.Server.Calls.{Server, W, on_encoder, decode, invoke_callback, casts}
use thingsetplusplus.Server.Handlers.{
  is_read_only, refuse, write_node, handle_node_update, update_found, update_entry, handle_update,
  invoke, found_node, run_function, handle_exec,
}
use thingsetplusplus.Server.Preserve.{
  Preserves, After, After-and_then, bind, choose, branch, returns, lifted, on_encoder-Preserves,
  fail-Preserves, reply-Preserves, set_status-Preserves, invoke_callback-Preserves,
}
use thingsetplusplus.Server.Safety.{CallbackKeeps, WriteKeeps, InvokeKeeps}
use thingsetplusplus.Server.Safety.Loops.{decode_map-Preserves}

module _ {E D S : Type 0} (s : Server E D S) (P : S → Type 0) (calls_back : CallbackKeeps s P) where
  refuse-Preserves : (status : Status) → Preserves P (refuse s status)
  unfolding refuse
  refuse-Preserves status = bind P (set_status-Preserves P status) λ _. returns P false

  write_node-After :
      (parent child : Ptr) (w : W s)
      → P (s.app.decode child w.decoder w.app).2
      → After P (write_node s parent child w)
  unfolding write_node
  write_node-After parent child w p = After-and_then P (decode s child w) _ p λ ok.
      choose P ok
        (bind P (invoke_callback-Preserves s P calls_back parent child did_write)
          λ _. returns P true)
        (refuse-Preserves bad_request)

  module _ (writes : WriteKeeps s P) where
    -- The answer of the parent's callback, then the write if it is true.
    agreed-After :
        (parent child : Ptr) (w : W s)
        → is_read_only s child ≡ false
        → casts s child decodable ≡ true
        → P w.app
        → After P (
            (invoke_callback s parent child will_write >>= λ granted. elim granted [
              | true ↦ write_node s parent child
              | false ↦ refuse s forbidden
            ])
              w)
    agreed-After parent child w writable decodes p =
        elim (Bool-cases (s.app.invoke_callback parent child will_write w.app).0) [
          | inl agrees ↦ rw (agrees) (
              write_node-After parent child _
                (writes parent child w.decoder w.app writable decodes p agrees))
          | inr refuses ↦
              rw (refuses)
                ((refuse-Preserves forbidden).keeps _ (calls_back parent child will_write w.app p))
        ]

    handle_node_update-After :
        (parent child : Ptr) (w : W s) → P w.app → After P (handle_node_update s parent child w)
    unfolding handle_node_update
    handle_node_update-After parent child w p = elim (Bool-cases (is_read_only s child)) [
      | inl readonly ↦ rw (readonly) ((refuse-Preserves forbidden).keeps w p)
      | inr writable ↦ elim (Bool-cases (casts s child decodable)) [
        | inl decodes ↦ rw (writable, decodes) (agreed-After parent child w writable decodes p)
        | inr not_decodes ↦ rw (writable, not_decodes) ((refuse-Preserves bad_request).keeps w p)
      ]
    ]

    update_found-Preserves : (parent : Ptr) (n : Option Ptr) → Preserves P (update_found s parent n)
    unfolding update_found
    update_found-Preserves parent none = refuse-Preserves not_found
    update_found-Preserves parent (some child) = record {
      keeps = handle_node_update-After parent child;
    }

    update_entry-Preserves :
        (parent : Ptr) (id : Option ℕ) (name : Option Bytes)
        → Preserves P (update_entry s parent id name)
    unfolding update_entry
    update_entry-Preserves parent (some id) name =
        bind P (lifted P (find_by_id s.info s.steps s.registry id)) (update_found-Preserves parent)
    update_entry-Preserves parent none (some name) =
        bind P (lifted P (find_by_name s.info s.array_size s.registry s.steps s.levels parent name))
          λ f. update_found-Preserves parent (found_node s f)
    update_entry-Preserves parent none none = returns P false

    pub handle_update-Preserves : (q : Request) (n : Ptr) → Preserves P (handle_update s q n)
    unfolding handle_update
    handle_update-Preserves q n =
        branch P (casts s n has_children)
          (bind P (set_status-Preserves P changed) λ _.
            bind P (on_encoder-Preserves s P s.enc.encode_preamble) λ _.
              bind P (decode_map-Preserves s P _ (update_entry-Preserves n)) λ ok.
                choose P ok
                  (bind P (on_encoder-Preserves s P s.enc.encode_preamble)
                    λ _. reply-Preserves s P q)
                  (returns P (get_header_length q.format)))
          (fail-Preserves s P q bad_request)

  module _ (invokes : InvokeKeeps s P) where
    run_function-After :
        (q : Request) (n : Ptr) (w : W s)
        → (bit_and (s.info n).access s.access == no_access) ≡ false
        → casts s n function ≡ true
        → P w.app
        → After P (run_function s q n w)
    unfolding run_function
    run_function-After q n w allowed runs p =
        After-and_then P (on_encoder s s.enc.encode_preamble w) _ p λ _. record {
          keeps = λ v pv.
              After-and_then P (invoke s n v) _
                (invokes n v.decoder v.encoder v.app allowed runs pv)
                λ ok.
                  choose P ok (bind P (set_status-Preserves P changed) λ _. reply-Preserves s P q)
                    (fail-Preserves s P q bad_request);
        }

    handle_exec-After : (q : Request) (n : Ptr) (w : W s) → P w.app → After P (handle_exec s q n w)
    unfolding handle_exec
    handle_exec-After q n w p =
        elim (Bool-cases (bit_and (s.info n).access s.access == no_access)) [
          | inl denied ↦ rw (denied) ((fail-Preserves s P q forbidden).keeps w p)
          | inr allowed ↦ elim (Bool-cases (casts s n function)) [
            | inl runs ↦ rw (allowed, runs) (run_function-After q n w allowed runs p)
            | inr other ↦ rw (allowed, other) ((fail-Preserves s P q bad_request).keeps w p)
          ]
        ]

    pub handle_exec-Preserves : (q : Request) (n : Ptr) → Preserves P (handle_exec s q n)
    handle_exec-Preserves q n = record { keeps = handle_exec-After q n }
