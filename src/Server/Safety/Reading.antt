-- ===== src/Server/Safety/Reading.antt =====
-- The handlers of src/ThingSetServer.cpp that encode values, keys and metadata.
use thingsetplusplus.Prelude.{
  ℕ, Bool, true, false, ◌&&◌, List, [], ◌∷◌, Option, none, some, ◌==◌, length,
}
use thingsetplusplus.LinkedList.{Ptr}
use thingsetplusplus.Node.{encodable, has_children}
use thingsetplusplus.Registry.{find_by_id}
use thingsetplusplus.RequestContext.{
  Request, use_ids, content, bad_request, not_found, unsupported_format,
}
use thingsetplusplus.Server.Calls.{Server, on_encoder, children, casts}
use thingsetplusplus.Server.Handlers.{
  encode_key, encode_pair, encode_keys_loop, encode_keys, encodables, encode_pairs, get_value,
  get_children, handle_get, fetch_names, encode_metadata, encode_metadata_found, fetch_metadata_of,
  fetch_metadata, handle_fetch, is_list,
}
use thingsetplusplus.Server.Preserve.{
  Preserves, bind, choose, branch, both, returns, lifted, on_encoder-Preserves,
  on_decoder-Preserves, fail-Preserves, reply-Preserves, set_status-Preserves, reads,
  encode-Preserves,
}
use thingsetplusplus.Server.Safety.{EncodeKeeps}
use thingsetplusplus.Server.Safety.Loops.{decode_list-Preserves}

module _ {E D S : Type 0} (s : Server E D S) (P : S → Type 0) where
  encode_key-Preserves : (ids : Bool) (n : Ptr) → Preserves P (encode_key s ids n)
  unfolding encode_key
  encode_key-Preserves ids n =
      branch P ids (on_encoder-Preserves s P (s.enc.encode_number (s.info n).id))
        (on_encoder-Preserves s P (s.enc.encode_string (s.info n).name))

  encode_keys_loop-Preserves :
      (ids : Bool) (ns : List Ptr) → Preserves P (encode_keys_loop s ids ns)
  unfolding encode_keys_loop
  encode_keys_loop-Preserves ids [] = returns P true
  encode_keys_loop-Preserves ids (n ∷ ns) =
      both P (encode_key-Preserves ids n) (encode_keys_loop-Preserves ids ns)

  encode_keys-Preserves : (ids : Bool) (ns : List Ptr) → Preserves P (encode_keys s ids ns)
  unfolding encode_keys
  encode_keys-Preserves ids ns =
      both P (on_encoder-Preserves s P (s.enc.encode_list_start (length ns))) (
        both P (encode_keys_loop-Preserves ids ns)
          (on_encoder-Preserves s P (s.enc.encode_list_end (length ns))))

  children-Preserves : (n : Ptr) → Preserves P (children s n)
  children-Preserves n = lifted P _

  fetch_names-Preserves : (q : Request) (n : Ptr) → Preserves P (fetch_names s q n)
  unfolding fetch_names
  fetch_names-Preserves q n =
      branch P (casts s n has_children)
        (bind P (children-Preserves n)
          λ nodes. bind P (encode_keys-Preserves (use_ids q) nodes) λ ok. reply-Preserves s P q)
        (fail-Preserves s P q bad_request)

  encode_metadata-Preserves : (n : Ptr) → Preserves P (encode_metadata s n)
  unfolding encode_metadata
  encode_metadata-Preserves n = both P (on s.enc.encode_open_map_start) (
      both P (on (s.enc.encode_number 0x1a)) (
        both P (on (s.enc.encode_string (s.info n).name)) (
          both P (on (s.enc.encode_number 0x1b)) (
            both P (on (s.enc.encode_string (s.app.get_type n))) (
              both P (on (s.enc.encode_number 0x1c)) (
                both P (on (s.enc.encode_number (s.info n).access))
                  (on s.enc.encode_open_map_end)))))))
    where
      on : (f : E → Bool × E) → Preserves P (on_encoder s f)
      on = on_encoder-Preserves s P

  encode_metadata_found-Preserves : (n : Option Ptr) → Preserves P (encode_metadata_found s n)
  unfolding encode_metadata_found
  encode_metadata_found-Preserves none = returns P false
  encode_metadata_found-Preserves (some n) = encode_metadata-Preserves n

  fetch_metadata_of-Preserves : (i : Option ℕ) → Preserves P (fetch_metadata_of s i)
  unfolding fetch_metadata_of
  fetch_metadata_of-Preserves none = returns P false
  fetch_metadata_of-Preserves (some id) =
      bind P (lifted P (find_by_id s.info s.steps s.registry id)) encode_metadata_found-Preserves

  fetch_metadata-Preserves : (q : Request) → Preserves P (fetch_metadata s q)
  unfolding fetch_metadata
  fetch_metadata-Preserves q =
      bind P
        (both P
          (decode_list-Preserves s P _ λ index.
            bind P (on_decoder-Preserves s P s.dec.decode_number) fetch_metadata_of-Preserves)
          (on_encoder-Preserves s P s.enc.encode_open_list_end))
        λ ok. choose P ok (reply-Preserves s P q) (fail-Preserves s P q not_found)

  pub handle_fetch-Preserves : (q : Request) (n : Ptr) → Preserves P (handle_fetch s q n)
  unfolding handle_fetch
  handle_fetch-Preserves q n = bind P (set_status-Preserves P content) λ _.
      bind P (on_encoder-Preserves s P s.enc.encode_preamble) λ _.
        bind P (on_decoder-Preserves s P s.dec.decode_null) λ null.
          choose P null (fetch_names-Preserves q n) (
            bind P (reads s P (λ w. is_list (s.dec.peek_type w.decoder))) λ listed.
              bind P
                (branch P (n == s.metadata && listed)
                  (on_encoder-Preserves s P s.enc.encode_open_list_start) (returns P false))
                λ started.
                  choose P started (fetch_metadata-Preserves q) (fail-Preserves s P q bad_request))

  module _ (encodes : EncodeKeeps s P) where
    encode_pair-Preserves : (ids : Bool) (n : Ptr) → Preserves P (encode_pair s ids n)
    unfolding encode_pair
    encode_pair-Preserves ids n = both P (encode_key-Preserves ids n) (
        both P (on_encoder-Preserves s P s.enc.encode_key_value_pair_separator) (
          both P (encode-Preserves s P encodes n)
            (on_encoder-Preserves s P s.enc.encode_list_separator)))

    encode_pairs-Preserves : (ids : Bool) (ns : List Ptr) → Preserves P (encode_pairs s ids ns)
    unfolding encode_pairs
    encode_pairs-Preserves ids [] = returns P tt
    encode_pairs-Preserves ids (n ∷ ns) =
        bind P (encode_pair-Preserves ids n) λ ok. encode_pairs-Preserves ids ns

    get_value-Preserves : (q : Request) (n : Ptr) → Preserves P (get_value s q n)
    unfolding get_value
    get_value-Preserves q n =
        bind P (encode-Preserves s P encodes n)
          λ ok. choose P ok (reply-Preserves s P q) (fail-Preserves s P q unsupported_format)

    get_children-Preserves : (q : Request) (n : Ptr) → Preserves P (get_children s q n)
    unfolding get_children
    get_children-Preserves q n = bind P (children-Preserves n) λ nodes.
        bind P (on_encoder-Preserves s P (s.enc.encode_map_start (length (encodables s nodes))))
          λ _. bind P (encode_pairs-Preserves (use_ids q) (encodables s nodes)) λ _.
            bind P (on_encoder-Preserves s P (s.enc.encode_map_end (length (encodables s nodes))))
              λ _. reply-Preserves s P q

    pub handle_get-Preserves : (q : Request) (n : Ptr) → Preserves P (handle_get s q n)
    unfolding handle_get
    handle_get-Preserves q n = bind P (set_status-Preserves P content) λ _.
        bind P (on_encoder-Preserves s P s.enc.encode_preamble) λ _.
          branch P (casts s n encodable) (get_value-Preserves q n) (
            branch P (casts s n has_children) (get_children-Preserves q n)
              (fail-Preserves s P q unsupported_format))
