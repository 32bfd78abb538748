-- ===== src/Server/Handlers.antt =====
-- The handlers of src/ThingSetServer.cpp.
use thingsetplusplus.Prelude.{
  ℕ, Bool, true, false, not, ◌&&◌, List, [], ◌∷◌, Option, none, some, ◌==◌, bit_and, if◌then◌else◌,
  length,
}
use thingsetplusplus.Bytes.{Bytes}
use thingsetplusplus.Coding.{EncodedNodeType, list}
use thingsetplusplus.Command.{Cmd, pure, ◌>>=◌, ◌>>◌, also, lift, read}
use thingsetplusplus.LinkedList.{Ptr}
use thingsetplusplus.Node.{
  has_children, encodable, decodable, request_handler, function, no_access, any_write,
}
use thingsetplusplus.Outcome.{done}
use thingsetplusplus.ParentNode.{Found, find_by_name}
use thingsetplusplus.Registry.{find_by_id}
use thingsetplusplus.RequestContext.{
  Status, Request, get, exec, fetch, update, is_type, has_valid_endpoint, is_to_be_forwarded,
  use_ids, get_header_length, content, changed, bad_request, forbidden, not_found,
  unsupported_format, not_implemented, not_a_gateway,
}
use thingsetplusplus.Server.State.{will_write, did_write, set_status, ℤ, is_zero}
use thingsetplusplus.Server.Calls.{
  as_int, Server, W, on_encoder, on_decoder, encode, decode, invoke_callback, children, casts, fail,
  reply, decode_list, decode_map,
}

abbrev pub is_list : EncodedNodeType → Bool
is_list list = true
is_list _ = false

module _ {E D S : Type 0} (s : Server E D S) where
  -- The key of a node in a map: its ID or its name.
  unfoldable pub encode_key : Bool → Ptr → Cmd (W s) Bool
  encode_key ids node =
      if ids
      then on_encoder s (s.enc.encode_number (s.info node).id)
      else on_encoder s (s.enc.encode_string (s.info node).name)

  -- ThingSetEncoder::encode of the pair of a key and an encodable node.
  unfoldable pub encode_pair : Bool → Ptr → Cmd (W s) Bool
  unfolding encode_key
  encode_pair ids node = also (encode_key ids node) (
      also (on_encoder s s.enc.encode_key_value_pair_separator)
        (also (encode s node) (on_encoder s s.enc.encode_list_separator)))

  -- ThingSetEncoder::encode of a list of keys.
  unfoldable pub encode_keys_loop : Bool → List Ptr → Cmd (W s) Bool
  unfolding encode_key
  encode_keys_loop ids [] = pure true
  encode_keys_loop ids (n ∷ ns) = also (encode_key ids n) (encode_keys_loop ids ns)

  unfoldable pub encode_keys : Bool → List Ptr → Cmd (W s) Bool
  unfolding encode_keys_loop
  encode_keys ids nodes =
      also (on_encoder s (s.enc.encode_list_start (length nodes)))
        (also (encode_keys_loop ids nodes) (on_encoder s (s.enc.encode_list_end (length nodes))))

  unfoldable pub encodables : List Ptr → List Ptr
  encodables [] = []
  encodables (n ∷ ns) = if casts s n encodable then n ∷ encodables ns else encodables ns

  -- The results of the pairs are not looked at.
  unfoldable pub encode_pairs : Bool → List Ptr → Cmd (W s) (Unit {0})
  unfolding encode_pair
  encode_pairs ids [] = pure tt
  encode_pairs ids (n ∷ ns) = do encode_pair ids n; encode_pairs ids ns

  unfoldable pub get_value : Request → Ptr → Cmd (W s) ℕ
  unfolding fail reply
  get_value q node = do
    ok ← encode s node
    elim ok [ true ↦ reply s q | false ↦ fail s q unsupported_format ]

  unfoldable pub get_children : Request → Ptr → Cmd (W s) ℕ
  unfolding encodables encode_pairs reply use_ids
  get_children q node = do
    nodes ← children s node
    let shown = encodables nodes
    on_encoder s (s.enc.encode_map_start (length shown))
    encode_pairs (use_ids q) shown
    on_encoder s (s.enc.encode_map_end (length shown))
    reply s q

  unfoldable pub handle_get : Request → Ptr → Cmd (W s) ℕ
  unfolding set_status get_value get_children fail
  handle_get q node = do
    set_status content
    on_encoder s s.enc.encode_preamble
    if casts s node encodable
        then get_value q node
        else if casts s node has_children
        then get_children q node
        else fail s q unsupported_format

  unfoldable pub fetch_names : Request → Ptr → Cmd (W s) ℕ
  unfolding encode_keys use_ids reply fail
  fetch_names q node =
      if casts s node has_children
      then (do nodes ← children s node; encode_keys (use_ids q) nodes; reply s q)
      else fail s q bad_request

  -- The entry of one node in a response about metadata: MetadataNameId, MetadataTypeId and
  -- MetadataAccessId with what the node says of itself.
  unfoldable pub encode_metadata : Ptr → Cmd (W s) Bool
  encode_metadata n = also (on_encoder s s.enc.encode_open_map_start) (
      also (on_encoder s (s.enc.encode_number 0x1a)) (
        also (on_encoder s (s.enc.encode_string (s.info n).name)) (
          also (on_encoder s (s.enc.encode_number 0x1b)) (
            also (on_encoder s (s.enc.encode_string (s.app.get_type n))) (
              also (on_encoder s (s.enc.encode_number 0x1c)) (
                also (on_encoder s (s.enc.encode_number (s.info n).access))
                  (on_encoder s s.enc.encode_open_map_end)))))))

  unfoldable pub encode_metadata_found : Option Ptr → Cmd (W s) Bool
  unfolding encode_metadata
  encode_metadata_found none = pure false
  encode_metadata_found (some n) = encode_metadata n

  unfoldable pub fetch_metadata_of : Option ℕ → Cmd (W s) Bool
  unfolding encode_metadata_found
  fetch_metadata_of none = pure false
  fetch_metadata_of (some id) = do
    n ← lift (find_by_id s.info s.steps s.registry id)
    encode_metadata_found n

  unfoldable pub fetch_metadata : Request → Cmd (W s) ℕ
  unfolding fetch_metadata_of decode_list reply fail
  fetch_metadata q = do
    ok ←
        also
          (decode_list s (λ index. do id ← on_decoder s s.dec.decode_number; fetch_metadata_of id))
          (on_encoder s s.enc.encode_open_list_end)
    elim ok [ true ↦ reply s q | false ↦ fail s q not_found ]

  unfoldable pub handle_fetch : Request → Ptr → Cmd (W s) ℕ
  unfolding set_status fetch_names fetch_metadata fail
  handle_fetch q node = do
    set_status content
    on_encoder s s.enc.encode_preamble
    null ← on_decoder s s.dec.decode_null
    elim null [
      | true ↦ fetch_names q node
      | false ↦ do
        listed ← read (λ w. is_list (s.dec.peek_type w.decoder))
        started ←
            (if node == s.metadata && listed
              then on_encoder s s.enc.encode_open_list_start
              else pure false)
        elim started [ true ↦ fetch_metadata q | false ↦ fail s q bad_request ]
    ]

  -- `(child->getAccess() & _access & anyWrite) == none`
  unfoldable pub is_read_only : Ptr → Bool
  is_read_only child = bit_and (bit_and (s.info child).access s.access) any_write == no_access

  unfoldable pub refuse : Status → Cmd (W s) Bool
  unfolding set_status
  refuse status = do set_status status; pure false

  -- The lambda `handleNodeUpdate`.
  unfoldable pub write_node : Ptr → Ptr → Cmd (W s) Bool
  unfolding refuse
  write_node parent child = do
    ok ← decode s child
    elim ok [
      | true ↦ do invoke_callback s parent child did_write; pure true
      | false ↦ refuse bad_request
    ]

  unfoldable pub handle_node_update : Ptr → Ptr → Cmd (W s) Bool
  unfolding refuse write_node is_read_only
  handle_node_update parent child =
      if is_read_only child
      then refuse forbidden
      else if not (casts s child decodable)
      then refuse bad_request
      else do
        granted ← invoke_callback s parent child will_write
        elim granted [ true ↦ write_node parent child | false ↦ refuse forbidden ]

  -- The callback of the map: the node is looked up in the whole registry if there is an ID, else by name
  -- under the node of the request.
  unfoldable pub update_found : Ptr → Option Ptr → Cmd (W s) Bool
  unfolding refuse handle_node_update
  update_found parent none = refuse not_found
  update_found parent (some child) = handle_node_update parent child

  abbrev pub found_node : Found → Option Ptr
  found_node f = if f.success then some f.node else none

  unfoldable pub update_entry : Ptr → Option ℕ → Option Bytes → Cmd (W s) Bool
  unfolding update_found
  update_entry parent (some id) name = do
    child ← lift (find_by_id s.info s.steps s.registry id)
    update_found parent child
  update_entry parent none (some name) = do
    f ← lift (find_by_name s.info s.array_size s.registry s.steps s.levels parent name)
    update_found parent (found_node f)
  update_entry parent none none = pure false

  unfoldable pub handle_update : Request → Ptr → Cmd (W s) ℕ
  unfolding set_status update_entry decode_map reply fail get_header_length
  handle_update q node =
      if casts s node has_children
      then (do
        set_status changed
        on_encoder s s.enc.encode_preamble
        ok ← decode_map s (update_entry node)
        elim ok [
          | true ↦ do on_encoder s s.enc.encode_preamble; reply s q
          | false ↦ pure (get_header_length q.format)
        ])
      else fail s q bad_request

  -- ThingSetInvocable::invoke between the two coders.
  abbrev pub invoke : Ptr → Cmd (W s) Bool
  invoke node w =
      let (ok, d, e, a) = s.app.invoke node w.decoder w.encoder w.app in
      done (ok, record w { decoder = d; encoder = e; app = a })

  unfoldable pub run_function : Request → Ptr → Cmd (W s) ℕ
  unfolding set_status reply fail
  run_function q node = do
    on_encoder s s.enc.encode_preamble
    ok ← invoke node
    elim ok [ true ↦ do set_status changed; reply s q | false ↦ fail s q bad_request ]

  unfoldable pub handle_exec : Request → Ptr → Cmd (W s) ℕ
  unfolding run_function fail
  handle_exec q node =
      if bit_and (s.info node).access s.access == no_access
      then fail s q forbidden
      else if casts s node function
      then run_function q node
      else fail s q bad_request

  -- The end of `handleRequest`: the first test that holds decides.
  unfoldable pub dispatch : Request → Ptr → Cmd (W s) ℕ
  unfolding handle_get handle_fetch handle_update handle_exec fail is_type
  dispatch q node =
      if is_type get q
      then handle_get q node
      else if is_type fetch q
      then handle_fetch q node
      else if is_type update q
      then handle_update q node
      else if is_type exec q
      then handle_exec q node
      else fail s q not_implemented

  abbrev pub custom : Ptr → Request → Cmd (W s) ℤ
  custom node q w = done (s.app.handle_request node q w)

  unfoldable pub handle_node : Request → Ptr → Cmd (W s) ℤ
  unfolding dispatch
  handle_node q node =
      if casts s node request_handler
      then (do
        result ← custom node q
        if is_zero result then as_int s (dispatch q node) else pure result)
      else as_int s (dispatch q node)

  -- `findById` or `findByName` from the root.
  unfoldable pub find_endpoint : Option ℕ → Option Bytes → Cmd (W s) (Option Ptr)
  find_endpoint (some id) path = lift (find_by_id s.info s.steps s.registry id)
  find_endpoint none (some path) = do
    f ← lift (find_by_name s.info s.array_size s.registry s.steps s.levels s.root path)
    pure (found_node f)
  find_endpoint none none = pure none

  unfoldable pub find_node : Request → Cmd (W s) (Option Ptr)
  unfolding find_endpoint
  find_node q = find_endpoint q.id q.path

  unfoldable pub handle_found : Request → Option Ptr → Cmd (W s) ℤ
  unfolding handle_node fail
  handle_found q none = as_int s (fail s q not_found)
  handle_found q (some node) = handle_node q node

  unfoldable pub forward_with : Option (Request → Cmd (W s) ℤ) → Request → Cmd (W s) ℤ
  unfolding fail
  forward_with (some handle) q = handle q
  forward_with none q = as_int s (fail s q not_a_gateway)

  unfoldable pub forward_request : Request → Cmd (W s) ℤ
  unfolding forward_with
  forward_request q = forward_with s.forwarder q

  unfoldable pub handle_request : Request → Cmd (W s) ℤ
  unfolding has_valid_endpoint is_to_be_forwarded find_node handle_found forward_request fail
  handle_request q =
      if not (has_valid_endpoint q)
      then as_int s (fail s q bad_request)
      else if is_to_be_forwarded q
      then forward_request q
      else do node ← find_node q; handle_found q node
