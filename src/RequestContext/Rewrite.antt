-- ===== src/RequestContext/Rewrite.antt =====
-- `rewrite` of src/ThingSetRequestContext.cpp, with which a gateway forwards a request: the request without
-- the ID of the node that it is for. A request is its bytes; the result is the bytes from the new start
-- of the buffer on, the length that is returned, and the node's ID.
use thingsetplusplus.Prelude.{
  append_assoc, ℕ, zero, suc, ◌+◌, ◌-◌, ◌%◌, ◌≤◌, ◌<◌, ◌≡◌, ◌⊎◌, refl, sym, ap, ◌∙◌, inl, inr, Bool,
  true, false, ◌&&◌, [], ◌∷◌, ◌++◌, Option, none, some, ◌==◌, leb, ltb, if◌then◌else◌, length,
  length-append, take, drop, bit_or, arith, Bool-cases,
}
use thingsetplusplus.Bytes.{Bytes, lacks, split_at, split_at-append}
use thingsetplusplus.Outcome.{Outcome, done, aborted}
use thingsetplusplus.RequestContext.{try_get_node_id, first_component}

pub record Rewritten : Type 0 where
  pub request : Bytes
  pub new_length : ℕ
  pub node_id : Bytes

abbrev pub starts_with : Bytes → Bytes → Bool
starts_with [] bytes = true
starts_with (c ∷ cs) [] = false
starts_with (c ∷ cs) (b ∷ bs) = (c == b) && starts_with cs bs

-- `std::search`: the first place where the text stands; `none` is the end of the range.
unfoldable pub search_from : ℕ → Bytes → Bytes → Option ℕ
search_from i text [] = none
search_from i text (b ∷ bs) =
    if starts_with text (b ∷ bs) then some i else search_from (i + 1) text bs

-- `nodeIdPathComponentStart`: the range ends before the last byte.
unfoldable pub find_node_id : Bytes → ℕ → Bytes → Option ℕ
unfolding search_from
find_node_id buffer request_length node_id =
    search_from 0 node_id (take (request_length - 1) buffer)

abbrev first_byte : Bytes → Bytes
first_byte [] = []
first_byte (b ∷ bs) = b ∷ []

-- A request with the verb `verb` for the path of a node and a rest, and what is behind the path.
abbrev pub node_path : Bytes → Bytes → Bytes
node_path node rest = b'/' ∷ (node ++ (b'/' ∷ rest))

abbrev pub path_request : ℕ → Bytes → Bytes → Bytes → Bytes
path_request verb header path payload = verb ∷ (header ++ (path ++ payload))

-- `value_in_header` is ZCBOR_VALUE_IN_HEADER.
module _ (value_in_header : ℕ) where
  -- The bytes that are written in front of the rest of the path.
  unfoldable pub string_header : ℕ → Bytes
  string_header new_path_length =
      if leb new_path_length value_in_header
      then bit_or 0x60 new_path_length % 256 ∷ []
      else 0x78 ∷ new_path_length % 256 ∷ []

  -- The path without the node's ID, which stands at `place`, with the header and the verb before it. A write
  -- in front of the buffer ends the model's run.
  unfoldable pub replace_path : Bytes → ℕ → Bytes → Bytes → ℕ → Outcome (Option Rewritten)
  unfolding string_header
  replace_path buffer request_length path node_id place =
      let path_start = place + length node_id + 1 in
      let header = string_header (length path - length node_id - 2) in
      let new_path_start = path_start - length header - 1 in
      if ltb path_start (length header + 1)
      then aborted
      else done (
          some (record {
            request = first_byte buffer ++ (header ++ drop path_start buffer);
            new_length = request_length - new_path_start + 1;
            node_id = node_id;
          }))

  unfoldable pub replace_found : Bytes → ℕ → Bytes → Bytes → Option ℕ → Outcome (Option Rewritten)
  unfolding replace_path
  replace_found buffer request_length path node_id none = done none
  replace_found buffer request_length path node_id (some place) =
      replace_path buffer request_length path node_id place

  unfoldable pub rewrite_node : Bytes → ℕ → Bytes → Option Bytes → Outcome (Option Rewritten)
  unfolding replace_found find_node_id
  rewrite_node buffer request_length path none = done none
  rewrite_node buffer request_length path (some node_id) =
      replace_found buffer request_length path node_id (find_node_id buffer request_length node_id)

  -- ThingSetBinaryRequestContext::rewrite where the ID is in the path. `none` is a returned 0.
  unfoldable pub rewrite_path : Bytes → ℕ → Bytes → Outcome (Option Rewritten)
  unfolding rewrite_node try_get_node_id
  rewrite_path buffer request_length path =
      rewrite_node buffer request_length path (try_get_node_id path)

  drop-append : (xs ys : Bytes) → drop (length xs) (xs ++ ys) ≡ ys
  drop-append [] ys = refl
  drop-append (x ∷ xs) ys = drop-append xs ys

  string_header-length : (n : ℕ) → (length (string_header n) ≡ 1) ⊎ (length (string_header n) ≡ 2)
  unfolding string_header
  string_header-length n = elim (Bool-cases (leb n value_in_header)) [
    | inl short ↦ rw (short) (inl refl)
    | inr long ↦ rw (long) (inr refl)
  ]

  -- The request in two parts: up to the slash behind the node's ID, and the rest.
  abbrev front : ℕ → Bytes → Bytes → Bytes
  front verb header node = verb ∷ (header ++ (b'/' ∷ (node ++ (b'/' ∷ []))))

  front_lem :
      (verb : ℕ) (header node rest payload : Bytes)
      → path_request verb header (node_path node rest) payload
        ≡ front verb header node ++ (rest ++ payload)
  front_lem verb header node rest payload =
      ap (λ t. verb ∷ (header ++ (b'/' ∷ t)))
        (append_assoc node (b'/' ∷ rest) payload
          ∙ sym (append_assoc node (b'/' ∷ []) (rest ++ payload)))
      ∙ sym (append_assoc (verb ∷ header) (b'/' ∷ (node ++ (b'/' ∷ []))) (rest ++ payload))

  front-length :
      (verb : ℕ) (header node : Bytes)
      → length (front verb header node) ≡ length header + 2 + length node + 1
  front-length verb header node =
      omega
        (arith, length-append header (b'/' ∷ (node ++ (b'/' ∷ []))), length-append node (b'/' ∷ []))

  new_length-total :
      (verb : ℕ) (header node rest payload : Bytes) (request_length : ℕ)
      → 0 < length header
      → 0 < length node
      → length (path_request verb header (node_path node rest) payload) ≤ request_length + 1
      → request_length
          - (length header + 2 + length node + 1 - length (string_header (length rest)) - 1)
          + 1
          + length (path_request verb header (node_path node rest) payload)
        ≡ length (verb ∷ (string_header (length rest) ++ (rest ++ payload))) + request_length + 1
  new_length-total verb header node rest payload request_length h1 h2 long =
      let total = ap length (front_lem verb header node rest payload) in
      let size = front-length verb header node in
      let after = length-append (front verb header node) (rest ++ payload) in
      let after' = length-append (string_header (length rest)) (rest ++ payload) in
      elim (string_header-length (length rest)) [ inl one ↦ omega arith | inr two ↦ omega arith ]

  replace_path-outside :
      (buffer : Bytes) (request_length : ℕ) (path node_id : Bytes) (place : ℕ)
      → place + length node_id + 1 ≤ 1
      → replace_path buffer request_length path node_id place ≡ aborted
  unfolding replace_path
  replace_path-outside buffer request_length path node_id place low =
      let n = length path - length node_id - 2 in
      let outside : ltb (place + length node_id + 1) (length (string_header n) + 1) ≡ true =
        ground (arith, string_header-length n) in
      rw outside refl

  -- If the ID of the node has no slash and at least one byte, and stands nowhere before its place in the path, then the rewritten
  -- request is the verb, the header for the rest of the path, that rest and the payload. The length that
  -- is returned is that of this request if the length that was given does not count the verb, and one
  -- more if it does.
  pub rewrite_path_lem :
      (verb : ℕ) (header node rest payload : Bytes) (request_length : ℕ)
      → 0 < length header
      → 0 < length node
      → lacks b'/' node ≡ true
      → length (path_request verb header (node_path node rest) payload) ≤ request_length + 1
      → find_node_id (path_request verb header (node_path node rest) payload) request_length node
        ≡ some (length header + 2)
      → (r : Rewritten) × (rewrite_path
            (path_request verb header (node_path node rest) payload)
            request_length
            (node_path node rest)
          ≡ done (some r))
        × (r.node_id ≡ node)
        × (r.request ≡ verb ∷ (string_header (length rest) ++ (rest ++ payload)))
        × (r.new_length + length (path_request verb header (node_path node rest) payload)
            ≡ length r.request + request_length + 1)
  unfolding rewrite_path rewrite_node replace_found replace_path try_get_node_id first_component
  rewrite_path_lem verb header node rest payload request_length h1 h2 plain long found =
      let n : length (node_path node rest) - length node - 2 ≡ length rest =
        omega (arith, length-append node (b'/' ∷ rest)) in
      let size = front-length verb header node in
      let fits : ltb (length header + 2 + length node + 1)
            (length (string_header (length rest)) + 1)
          ≡ false =
        ground (arith, string_header-length (length rest)) in
      let dropped : drop (length header + 2 + length node + 1)
            (path_request verb header (node_path node rest) payload)
          ≡ rest ++ payload =
        rw (front_lem verb header node rest payload, sym size)
          (drop-append (front verb header node) (rest ++ payload)) in
      rw (split_at-append b'/' node rest plain, found, n, fits, dropped)
        (
          _,
          refl,
          refl,
          refl,
          new_length-total verb header node rest payload request_length h1 h2 long,
        )

  find_node_id_empty :
      (b c : ℕ) (bs : Bytes) (request_length : ℕ)
      → 1 < request_length
      → find_node_id (b ∷ c ∷ bs) request_length [] ≡ some 0
  unfolding find_node_id search_from
  find_node_id_empty b c bs zero h = absurd (omega arith)
  find_node_id_empty b c bs (suc zero) h = absurd (omega arith)
  find_node_id_empty b c bs (suc (suc k)) h =
      let one_less : suc (suc k) - 1 ≡ suc k = omega arith in rw one_less refl

  -- A path that begins with two slashes names a node with an empty ID. Such a request, of at least two bytes, makes
  -- the call write in front of the buffer.
  pub rewrite_path-empty_node :
      (b c : ℕ) (bs rest : Bytes) (request_length : ℕ)
      → 1 < request_length
      → rewrite_path (b ∷ c ∷ bs) request_length (b'/' ∷ b'/' ∷ rest) ≡ aborted
  unfolding rewrite_path rewrite_node replace_found replace_path try_get_node_id first_component
      split_at
  rewrite_path-empty_node b c bs rest request_length h =
      rw (find_node_id_empty b c bs request_length h)
        (replace_path-outside (b ∷ c ∷ bs) request_length (b'/' ∷ b'/' ∷ rest) [] 0 (omega arith))
