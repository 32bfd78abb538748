-- ===== src/RequestContext/Examples.antt =====
-- The theorems on `rewrite` of src/ThingSetRequestContext.cpp at a request for "/a/b" of a node "a".
use thingsetplusplus.Prelude.{◌+◌, ◌≡◌, refl, some, [], ◌∷◌, ◌++◌, length, arith}
use thingsetplusplus.Outcome.{done}
use thingsetplusplus.RequestContext.Rewrite.{
  Rewritten, rewrite_path, find_node_id, search_from, path_request, node_path, string_header,
  rewrite_path_lem,
}

located :
    find_node_id (path_request 1 (100 ∷ []) (node_path (97 ∷ []) (98 ∷ [])) []) 5 (97 ∷ []) ≡ some 3
unfolding find_node_id search_from
located = refl

rewrite_path_lem_example :
    (r : Rewritten) × (rewrite_path 23
        (path_request 1 (100 ∷ []) (node_path (97 ∷ []) (98 ∷ [])) [])
        5
        (node_path (97 ∷ []) (98 ∷ []))
      ≡ done (some r))
    × (r.node_id ≡ 97 ∷ [])
    × (r.request ≡ 1 ∷ (string_header 23 1 ++ (98 ∷ [] ++ [])))
    × (r.new_length + 6 ≡ length r.request + 5 + 1)
rewrite_path_lem_example =
    rewrite_path_lem 23 1 (100 ∷ []) (97 ∷ []) (98 ∷ []) [] 5 (omega arith) (omega arith) refl
      (omega arith) located
