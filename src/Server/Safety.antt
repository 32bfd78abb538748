-- ===== src/Server/Safety.antt =====
-- What a request to src/ThingSetServer.cpp can change in the application: reading changes nothing but
-- what encoding a value does, and a value is written or a function called only where the access rights
-- allow it.
mod Loops
mod Reading
mod Writing
pub mod Requests
pub mod ReadOnly
use thingsetplusplus.Prelude.{
  ℕ, zero, suc, ◌+◌, ◌≡◌, refl, inl, inr, Bool, true, false, not, ◌&&◌, List, [], ◌∷◌, Option, none,
  some, ◌==◌, bit_and, arith, if◌then◌else◌, Bool-cases, length,
}
use thingsetplusplus.Bytes.{Bytes}
use thingsetplusplus.Command.{Cmd, pure, ◌>>=◌, ◌>>◌, also, lift, read}
use thingsetplusplus.LinkedList.{Ptr}
use thingsetplusplus.Node.{encodable, decodable, has_children, function, request_handler, no_access}
use thingsetplusplus.Outcome.{Outcome, done, aborted, out_of_fuel}
use thingsetplusplus.ParentNode.{Found, find_by_name}
use thingsetplusplus.Registry.{find_by_id}
use thingsetplusplus.RequestContext.{
  Status, Request, get, exec, fetch, update, is_type, has_valid_endpoint, is_to_be_forwarded,
  use_ids, changed, content, bad_request, forbidden, not_found,
}
use thingsetplusplus.Server.State.{World, CallbackReason, will_write, did_write, set_status}
use thingsetplusplus.Server.Calls.{
  Server, W, on_encoder, on_decoder, encode, decode, invoke_callback, children, casts, decode_items,
  decode_list, take_string, take_number, decode_key, decode_entries, decode_map, fail, reply,
}
use thingsetplusplus.Server.Handlers.{
  encode_key, encode_pair, encode_keys_loop, encode_keys, encodables, encode_pairs, get_value,
  get_children, handle_get, fetch_names, encode_metadata, encode_metadata_found, fetch_metadata_of,
  fetch_metadata, handle_fetch, is_list, is_read_only, refuse, write_node, handle_node_update,
  update_found, update_entry, handle_update, invoke, found_node, run_function, handle_exec,
  dispatch, custom, handle_node, find_node, handle_found, forward_request, handle_request,
}
use thingsetplusplus.Server.Preserve.{
  Preserves, After, bind, choose, branch, both, returns, lifted, on_encoder-Preserves,
  on_decoder-Preserves, fail-Preserves, reply-Preserves, set_status-Preserves, reads,
  encode-Preserves, invoke_callback-Preserves,
}

module _ {E D S : Type 0} (s : Server E D S) (P : S → Type 0) where
  -- Encoding the value of a node keeps the property.
  abbrev pub EncodeKeeps : Type 0
  EncodeKeeps = (n : Ptr) (e : E) (a : S) → P a → P (s.app.encode n e a).2

  -- The callbacks of parent nodes keep it.
  abbrev pub CallbackKeeps : Type 0
  CallbackKeeps =
      (p n : Ptr) (why : CallbackReason) (a : S) → P a → P (s.app.invoke_callback p n why a).1

  -- Decoding into a node keeps it, where the node can be written with the server's access rights, can be
  -- decoded into, and its parent has just agreed.
  abbrev pub WriteKeeps : Type 0
  WriteKeeps =
      (p n : Ptr) (d : D) (a : S)
      → is_read_only s n ≡ false
      → casts s n decodable ≡ true
      → P a
      → (s.app.invoke_callback p n will_write a).0 ≡ true
      → P (s.app.decode n d (s.app.invoke_callback p n will_write a).1).2

  -- Calling a function keeps it, where the function shares an access right with the server.
  abbrev pub InvokeKeeps : Type 0
  InvokeKeeps =
      (n : Ptr) (d : D) (e : E) (a : S)
      → (bit_and (s.info n).access s.access == no_access) ≡ false
      → casts s n function ≡ true
      → P a
      → P (s.app.invoke n d e a).3
