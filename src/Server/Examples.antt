-- ===== src/Server/Examples.antt =====
-- The theorems on src/ThingSetServer.cpp at a server of two nodes, whose payloads are lists of tokens
-- and whose response is the number of its items.
use thingsetplusplus.Prelude.{
  ℕ, suc, ◌+◌, ◌≤◌, ◌<◌, ◌≡◌, ◌≢◌, refl, sym, inl, inr, Bool, true, false, ◌&&◌, List, [], ◌∷◌,
  Option, none, some, arith, ◌==◌, if◌then◌else◌, length, Bool-cases, ltb,
}
use thingsetplusplus.Bytes.{Bytes}
use thingsetplusplus.Coding.{Encoder, Decoder, map}
use thingsetplusplus.LinkedList.{Ptr}
use thingsetplusplus.Node.{request_handler, any_read_write}
use thingsetplusplus.Outcome.{done}
use thingsetplusplus.Registry.{bucket_of}
use thingsetplusplus.Registry.Lookup.{first}
use thingsetplusplus.Registry.Examples.{
  info, two_nodes, held, kids, two_nodes-Holds, two_nodes-total, two_nodes-kids, kids-length,
}
use thingsetplusplus.RequestContext.{binary, Request, is_to_be_forwarded, is_type, code}
use thingsetplusplus.Server.State.{World, App, ℤ, pos}
use thingsetplusplus.Server.Calls.{Server, W, casts}
use thingsetplusplus.Server.Handlers.{handle_request, handle_node_update, is_read_only}
use thingsetplusplus.Server.Preserve.{After}
use thingsetplusplus.Server.Safety.Requests.{handle_request-keeps}
use thingsetplusplus.Server.Safety.ReadOnly.{Cells, handle_request-read_only}
use thingsetplusplus.Server.Termination.{Consumes, InOrder}
use thingsetplusplus.Server.Termination.Requests.{Objects, handle_request-ends}
use thingsetplusplus.Server.Branches.{
  asked, written, is_writable, refusal, effect, handle_node_update_lem, handle_request-by_id,
  IsAnswered,
}

-- An encoder that counts, and a decoder of tokens.
abbrev encode_item : {A : Type 0} → A → ℕ → Bool × ℕ
encode_item a e = (true, e + 1)

abbrev encode_nothing : ℕ → Bool × ℕ
encode_nothing e = (true, e)

abbrev counter : Encoder ℕ
counter = record {
  encoded_length = λ e. e;
  encode_preamble = encode_nothing;
  encode_list_start = encode_item;
  encode_list_end = λ n e. (true, e);
  encode_map_start = encode_item;
  encode_map_end = λ n e. (true, e);
  encode_list_separator = encode_nothing;
  encode_key_value_pair_separator = encode_nothing;
  encode_number = encode_item;
  encode_string = encode_item;
  encode_open_list_start = encode_nothing;
  encode_open_list_end = encode_nothing;
  encode_open_map_start = encode_nothing;
  encode_open_map_end = encode_nothing;
}

data Token : Type 0 where
  number : ℕ → Token
  key : Bytes → Token
  start : Token

abbrev Tokens : Type 0
Tokens = List Token

abbrev take_token : Tokens → Option ℕ × Tokens
take_token (number n ∷ ts) = (some n, ts)
take_token ts = (none, ts)

abbrev size : Tokens → ℕ
size [] = 0
size (number n ∷ ts) = suc (size ts)
size (start ∷ ts) = suc (size ts)
size (key k ∷ ts) = suc (length k) + size ts

abbrev take_key : Tokens → Option Bytes × Tokens
take_key (key k ∷ ts) = (some k, ts)
take_key ts = (none, ts)

abbrev take_start : Tokens → Bool × Tokens
take_start (start ∷ ts) = (true, ts)
take_start ts = (false, ts)

abbrev tokens : Decoder Tokens
tokens = record {
  decode_null = λ d. (false, d);
  decode_list_start = take_start;
  decode_list_end = λ d. (true, d);
  decode_map_start = take_start;
  decode_map_end = λ d. (length d == 0, d);
  is_in_list = λ d. ltb 0 (length d);
  is_in_map = λ d. ltb 0 (length d);
  decode_number = take_token;
  decode_string = take_key;
  peek_type = λ d. map;
  skip = λ d. (false, d);
}

abbrev set_cell : Ptr → Option ℕ × Tokens → (Ptr → ℕ) → Bool × Tokens × (Ptr → ℕ)
set_cell n (none, ts) a = (false, ts, a)
set_cell n (some v, ts) a = (true, ts, λ m. if m == n then v else a m)

-- Each node holds a number.
abbrev cells : App ℕ Tokens (Ptr → ℕ)
cells = record {
  encode = λ n e a. (true, e + 1, a);
  decode = λ n d a. set_cell n (take_token d) a;
  invoke_callback = λ p n why a. (true, a);
  invoke = λ n d e a. (true, d, e, a);
  handle_request = λ n q w. (pos 0, w);
  get_type = λ n. [];
}

abbrev server : Server ℕ Tokens (Ptr → ℕ)
server = record {
  enc = counter;
  dec = tokens;
  app = cells;
  info = info;
  array_size = λ p. none;
  registry = two_nodes;
  root = 1;
  metadata = 9;
  access = any_read_write;
  forwarder = none;
  steps = 20;
  levels = 20;
}

-- A request to update the group: the value by its name, then node 3 by its ID.
abbrev update_group : Request
update_group = record { format = binary; request_type = 7; id = some 16; path = none }

abbrev start_world : World ℕ Tokens (Ptr → ℕ)
start_world = record {
  encoder = 0;
  decoder = start ∷ key (118 ∷ []) ∷ number 5 ∷ number 18 ∷ number 6 ∷ [];
  app = λ p. 0;
  status = none;
}

set_cell-other :
    (n m : Ptr) (o : Option ℕ × Tokens) (a : Ptr → ℕ) → n ≢ m → (set_cell n o a).2 m ≡ a m
set_cell-other n m (none, ts) a ne = refl
set_cell-other n m (some v, ts) a ne = ground arith

server-Cells : Cells server.app (λ n m. false)
server-Cells = record {
  encode_reads = λ n e a. refl;
  callback_reads = λ p n why a. refl;
  decode_writes = λ n m d a ne. set_cell-other n m (take_token d) a ne;
  invoke_writes = λ n m d e a h. refl;
}

no_handlers : (n : Ptr) → casts server n request_handler ≡ false
no_handlers n = ground arith

value-read_only : is_read_only server 2 ≡ true
unfolding is_read_only
value-read_only = refl

handle_request-read_only_example :
    After (λ a. a 2 ≡ 0) (handle_request server update_group start_world)
handle_request-read_only_example =
    handle_request-read_only server server-Cells 2 value-read_only (λ n. refl) no_handlers refl
      update_group start_world

-- A write to another node than 2 leaves the value of node 2.
write-keeps :
    (n : Ptr) (d : Tokens) (a : Ptr → ℕ)
    → is_read_only server n ≡ false
    → a 2 ≡ 0
    → (set_cell n (take_token d) a).2 2 ≡ 0
unfolding is_read_only
write-keeps n d a writable p = elim (Bool-cases (n == 2)) [
  | inl same ↦ ground arith
  | inr other ↦ ground (arith, set_cell-other n 2 (take_token d) a)
]

handle_request-keeps_example : After (λ a. a 2 ≡ 0) (handle_request server update_group start_world)
handle_request-keeps_example =
    handle_request-keeps server (λ a. a 2 ≡ 0) (λ n e a p. p) (λ p n why a h. h)
      (λ p n d a writable decodes h agreed. write-keeps n d a writable h)
      (λ n d e a allowed runs h. h) (λ q n handles. record { keeps = λ w h. h }) (λ h given. cc)
      update_group start_world refl

size-number : (d : Tokens) (n : ℕ) → (take_token d).0 ≡ some n → size (take_token d).1 < size d
size-number [] n e = cc
size-number (number m ∷ ts) n e = omega arith
size-number (key k ∷ ts) n e = cc
size-number (start ∷ ts) n e = cc

size-number_keeps : (d : Tokens) → size (take_token d).1 ≤ size d
size-number_keeps [] = omega arith
size-number_keeps (number m ∷ ts) = omega arith
size-number_keeps (key k ∷ ts) = omega arith
size-number_keeps (start ∷ ts) = omega arith

some-injective : {A : Type 0} {a b : A} → ◌≡◌ {A = Option A} (some a) (some b) → a ≡ b
some-injective e = cc

size-key :
    (d : Tokens) (k : Bytes)
    → (take_key d).0 ≡ some k
    → (size (take_key d).1 < size d) × (length k ≤ size d)
size-key [] k e = cc
size-key (number m ∷ ts) k e = cc
size-key (key j ∷ ts) k e =
    let same : j ≡ k = some-injective e in (omega arith, rw (sym same) (omega arith))
size-key (start ∷ ts) k e = cc

size-key_keeps : (d : Tokens) → size (take_key d).1 ≤ size d
size-key_keeps [] = omega arith
size-key_keeps (number m ∷ ts) = omega arith
size-key_keeps (key k ∷ ts) = omega arith
size-key_keeps (start ∷ ts) = omega arith

size-start_keeps : (d : Tokens) → size (take_start d).1 ≤ size d
size-start_keeps [] = omega arith
size-start_keeps (number m ∷ ts) = omega arith
size-start_keeps (key k ∷ ts) = omega arith
size-start_keeps (start ∷ ts) = omega arith

tokens-Consumes : Consumes server.dec size
tokens-Consumes = record {
  number_shrinks = size-number;
  number_keeps = size-number_keeps;
  string_shrinks = size-key;
  string_keeps = size-key_keeps;
  null_keeps = λ d. omega arith;
  list_start_keeps = size-start_keeps;
  list_end_keeps = λ d. omega arith;
  map_start_keeps = size-start_keeps;
  map_end_keeps = λ d. omega arith;
}

server-InOrder : InOrder server
server-InOrder = record {
  bs = held;
  holds = two_nodes-Holds;
  enough = omega (arith, two_nodes-total);
  kids = kids;
  lists = two_nodes-kids;
  kids_enough = λ p. omega (arith, kids-length p);
}

set_cell-size : (n : Ptr) (o : Option ℕ × Tokens) (a : Ptr → ℕ) → (set_cell n o a).1 ≡ o.1
set_cell-size n (none, ts) a = refl
set_cell-size n (some v, ts) a = refl

cell-keeps : (n : Ptr) (d : Tokens) (a : Ptr → ℕ) → size (set_cell n (take_token d) a).1 ≤ size d
cell-keeps n d a = rw (set_cell-size n (take_token d) a) (size-number_keeps d)

server-Objects : Objects server size
server-Objects = record {
  decode_keeps = cell-keeps;
  invoke_keeps = λ n d e a. omega arith;
  custom_keeps = λ n q w. omega arith;
}

handle_request-ends_example :
    (n : ℤ) × (v : W server) × (handle_request server update_group start_world ≡ done (n, v))
handle_request-ends_example =
    handle_request-ends server size 20 tokens-Consumes server-InOrder server-Objects (omega arith)
      (omega arith) (λ h given. cc) update_group start_world tt (omega arith)

-- The two entries of the payload, one by one.
abbrev at_value : World ℕ Tokens (Ptr → ℕ)
at_value = record start_world { decoder = number 5 ∷ [] }

handle_node_update_lem_example :
    (ok : Bool) × (v : W server) × (handle_node_update server 1 3 at_value ≡ done (ok, v))
    × (ok ≡ (
        is_writable server 3 && ((asked server 1 3 at_value).0 && (written server 1 3 at_value).0)))
    × (v.status ≡ (if ok then at_value.status else some (refusal server 1 3 at_value)))
    × (v.app ≡ effect server 1 3 at_value)
    × (v.encoder ≡ at_value.encoder)
handle_node_update_lem_example = handle_node_update_lem server 1 3 at_value

update_group-local : is_to_be_forwarded update_group ≡ false
unfolding is_to_be_forwarded is_type code
update_group-local = refl

handle_request-by_id_example :
    IsAnswered server update_group start_world
      (first (λ n. (info n).id == 16) (held (bucket_of 16)))
      (handle_request server update_group start_world)
handle_request-by_id_example =
    handle_request-by_id server update_group 16 held start_world refl update_group-local
      two_nodes-Holds (omega (arith, two_nodes-total))
