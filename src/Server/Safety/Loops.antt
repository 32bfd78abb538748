-- ===== src/Server/Safety/Loops.antt =====
-- decodeList, decodeKey and decodeMap of include/thingset++/ThingSetDecoder.hpp keep what the callback
-- of each entry keeps.
use thingsetplusplus.Prelude.{ℕ, zero, suc, ◌+◌, Bool, true, false, Option, none, some}
use thingsetplusplus.Bytes.{Bytes}
use thingsetplusplus.Command.{Cmd}
use thingsetplusplus.Server.Calls.{
  Server, W, decode_items, decode_list, take_string, take_number, decode_key, decode_entries,
  decode_map,
}
use thingsetplusplus.Server.Preserve.{
  Preserves, bind, choose, both, returns, on_decoder-Preserves, reads,
}

module _ {E D S : Type 0} (s : Server E D S) (P : S → Type 0) where
  decode_items-Preserves :
      (fuel : ℕ) (callback : ℕ → Cmd (W s) Bool) (index : ℕ)
      → ((i : ℕ) → Preserves P (callback i))
      → Preserves P (decode_items s fuel callback index)
  unfolding decode_items
  decode_items-Preserves zero callback index each = record { keeps = λ w p. tt }
  decode_items-Preserves (suc fuel) callback index each =
      bind P (reads s P (λ w. s.dec.is_in_list w.decoder)) λ more.
        choose P more
          (bind P (each index) λ ok.
            choose P ok (decode_items-Preserves fuel callback (index + 1) each) (returns P false))
          (on_decoder-Preserves s P s.dec.decode_list_end)

  pub decode_list-Preserves :
      (callback : ℕ → Cmd (W s) Bool)
      → ((i : ℕ) → Preserves P (callback i))
      → Preserves P (decode_list s callback)
  unfolding decode_list
  decode_list-Preserves callback each =
      both P (on_decoder-Preserves s P s.dec.decode_list_start)
        (decode_items-Preserves s.steps callback 0 each)

  take_string-Preserves :
      (id : Option ℕ) (name key : Option Bytes) → Preserves P (take_string s id name key)
  unfolding take_string
  take_string-Preserves id name (some key) = returns P (true, id, some key)
  take_string-Preserves id name none = returns P (false, id, name)

  take_number-Preserves :
      (id : Option ℕ) (name : Option Bytes) (i : Option ℕ) → Preserves P (take_number s id name i)
  unfolding take_number
  take_number-Preserves id name (some n) = returns P (true, some n, name)
  take_number-Preserves id name none =
      bind P (on_decoder-Preserves s P s.dec.decode_string) (take_string-Preserves id name)

  decode_key-Preserves : (id : Option ℕ) (name : Option Bytes) → Preserves P (decode_key s id name)
  unfolding decode_key
  decode_key-Preserves id name =
      bind P (on_decoder-Preserves s P s.dec.decode_number) (take_number-Preserves id name)

  decode_entries-Preserves :
      (fuel : ℕ) (callback : Option ℕ → Option Bytes → Cmd (W s) Bool) (id : Option ℕ)
      (name : Option Bytes)
      → ((i : Option ℕ) (n : Option Bytes) → Preserves P (callback i n))
      → Preserves P (decode_entries s fuel callback id name)
  unfolding decode_entries
  decode_entries-Preserves zero callback id name each = record { keeps = λ w p. tt }
  decode_entries-Preserves (suc fuel) callback id name each =
      bind P (decode_key-Preserves id name) λ (ok, id', name').
        choose P ok
          (bind P (each id' name') λ good.
            choose P good (decode_entries-Preserves fuel callback id' name' each) (returns P false))
          (on_decoder-Preserves s P s.dec.decode_map_end)

  pub decode_map-Preserves :
      (callback : Option ℕ → Option Bytes → Cmd (W s) Bool)
      → ((i : Option ℕ) (n : Option Bytes) → Preserves P (callback i n))
      → Preserves P (decode_map s callback)
  unfolding decode_map
  decode_map-Preserves callback each =
      both P (on_decoder-Preserves s P s.dec.decode_map_start)
        (decode_entries-Preserves s.steps callback none none each)
