-- ===== src/Server/Calls.antt =====
-- What the handlers of src/ThingSetServer.cpp call: the coders, the objects of the application, and the
-- iteration over a list or map of include/thingset++/ThingSetDecoder.hpp.
use thingsetplusplus.Prelude.{ℕ, zero, suc, ◌+◌, Bool, true, false, List, Option, none, some}
use thingsetplusplus.Bytes.{Bytes}
use thingsetplusplus.Coding.{Encoder, Decoder}
use thingsetplusplus.Command.{Cmd, pure, ◌>>=◌, ◌>>◌, also, lift, read}
use thingsetplusplus.LinkedList.{Ptr, begin, visit}
use thingsetplusplus.Node.{Node, Access, NodeType}
use thingsetplusplus.Outcome.{done, out_of_fuel, walk}
use thingsetplusplus.Registry.{Registry}
use thingsetplusplus.RequestContext.{Status, Request, get_header_length}
use thingsetplusplus.Server.State.{World, App, CallbackReason, ℤ, pos, set_status}

-- Everything that does not change during a request: `steps` bounds each walk along links and each loop
-- over the payload, `levels` the depth of a path.
pub record Server (E D S : Type 0) : Type 0 where
  pub enc : Encoder E
  pub dec : Decoder D
  pub app : App E D S
  pub info : Ptr → Node
  pub array_size : Ptr → Option ℕ
  pub registry : Registry
  pub root : Ptr
  pub metadata : Ptr
  pub access : Access
  pub forwarder : Option (Request → Cmd (World E D S) ℤ)
  pub steps : ℕ
  pub levels : ℕ

module _ {E D S : Type 0} (s : Server E D S) where
  abbrev pub W : Type 0
  W = World E D S

  -- Calls on the encoder, on the decoder, and on the objects of the application.
  abbrev pub on_encoder : {A : Type 0} → (E → A × E) → Cmd W A
  on_encoder f w = let (a, e) = f w.encoder in done (a, record w { encoder = e })

  abbrev pub on_decoder : {A : Type 0} → (D → A × D) → Cmd W A
  on_decoder f w = let (a, d) = f w.decoder in done (a, record w { decoder = d })

  abbrev pub encode : Ptr → Cmd W Bool
  encode node w =
      let (ok, e, a) = s.app.encode node w.encoder w.app in
      done (ok, record w { encoder = e; app = a })

  abbrev pub decode : Ptr → Cmd W Bool
  decode node w =
      let (ok, d, a) = s.app.decode node w.decoder w.app in
      done (ok, record w { decoder = d; app = a })

  abbrev pub invoke_callback : Ptr → Ptr → CallbackReason → Cmd W Bool
  invoke_callback parent child reason w =
      let (ok, a) = s.app.invoke_callback parent child reason w.app in
      done (ok, record w { app = a })

  abbrev pub children : Ptr → Cmd W (List Ptr)
  children node =
      lift (walk (visit s.steps s.registry.child_links (begin (s.registry.children node))))

  abbrev pub casts : Ptr → NodeType → Bool
  casts node type = (s.info node).casts type

  -- A length, as the `int` that `handleRequest` returns.
  abbrev pub as_int : Cmd W ℕ → Cmd W ℤ
  as_int m = do size ← m; pure (pos size)

  -- `context.setStatus(status); return context.getHeaderLength();`
  unfoldable pub fail : Request → Status → Cmd W ℕ
  unfolding set_status get_header_length
  fail q status = do set_status status; pure (get_header_length q.format)

  -- `return context.encoder().getEncodedLength() + context.getHeaderLength();`
  unfoldable pub reply : Request → Cmd W ℕ
  unfolding get_header_length
  reply q = read (λ w. s.enc.encoded_length w.encoder + get_header_length q.format)

  -- ThingSetDecoder::decodeList.
  unfoldable pub decode_items : ℕ → (ℕ → Cmd W Bool) → ℕ → Cmd W Bool
  decode_items zero callback index = λ w. out_of_fuel
  decode_items (suc fuel) callback index = do
    more ← read (λ w. s.dec.is_in_list w.decoder)
    elim more [
      | true ↦ do
        ok ← callback index
        elim ok [ true ↦ decode_items fuel callback (index + 1) | false ↦ pure false ]
      | false ↦ on_decoder s.dec.decode_list_end
    ]

  unfoldable pub decode_list : (ℕ → Cmd W Bool) → Cmd W Bool
  unfolding decode_items
  decode_list callback = also (on_decoder s.dec.decode_list_start) (decode_items s.steps callback 0)

  -- ThingSetDecoder::decodeKey: whether a key was read, and what the two references hold afterwards.
  unfoldable pub take_string :
      Option ℕ → Option Bytes → Option Bytes → Cmd W (Bool × Option ℕ × Option Bytes)
  take_string id name (some key) = pure (true, id, some key)
  take_string id name none = pure (false, id, name)

  unfoldable pub take_number :
      Option ℕ → Option Bytes → Option ℕ → Cmd W (Bool × Option ℕ × Option Bytes)
  unfolding take_string
  take_number id name (some n) = pure (true, some n, name)
  take_number id name none = do key ← on_decoder s.dec.decode_string; take_string id name key

  unfoldable pub decode_key : Option ℕ → Option Bytes → Cmd W (Bool × Option ℕ × Option Bytes)
  unfolding take_number
  decode_key id name = do i ← on_decoder s.dec.decode_number; take_number id name i

  -- The overload of ThingSetDecoder::decodeMap whose keys are numbers or strings. The variables `id` and
  -- `name` live across the entries.
  unfoldable pub decode_entries :
      ℕ → (Option ℕ → Option Bytes → Cmd W Bool) → Option ℕ → Option Bytes → Cmd W Bool
  unfolding decode_key
  decode_entries zero callback id name = λ w. out_of_fuel
  decode_entries (suc fuel) callback id name = do
    (ok, id', name') ← decode_key id name
    elim ok [
      | true ↦ do
        good ← callback id' name'
        elim good [ true ↦ decode_entries fuel callback id' name' | false ↦ pure false ]
      | false ↦ on_decoder s.dec.decode_map_end
    ]

  unfoldable pub decode_map : (Option ℕ → Option Bytes → Cmd W Bool) → Cmd W Bool
  unfolding decode_entries
  decode_map callback =
      also (on_decoder s.dec.decode_map_start) (decode_entries s.steps callback none none)
