-- ===== src/Server/Termination/Loops.antt =====
-- decodeList and decodeMap of include/thingset++/ThingSetDecoder.hpp.
use thingsetplusplus.Prelude.{
  ℕ, zero, suc, ◌+◌, ◌<◌, ◌≤◌, ◌≡◌, refl, Option-cases, inl, inr, Bool, true, false, Option, none,
  some, arith, Bool-cases, length,
}
use thingsetplusplus.Bytes.{Bytes}
use thingsetplusplus.Command.{Cmd}
use thingsetplusplus.Outcome.{done}
use thingsetplusplus.Server.Calls.{
  Server, W, decode_items, decode_list, take_string, take_number, decode_key, decode_entries,
  decode_map,
}
use thingsetplusplus.Server.Termination.{Consumes, EndsWithin, Ends, both, on_decoder-Ends}

module _ {E D S : Type 0} (s : Server E D S) (remaining : D → ℕ) (bound : ℕ)
    (consumes : Consumes s.dec remaining) where
  -- A callback of a list that ends, and has consumed something if it is to be called again.
  abbrev pub Advances : Cmd (W s) Bool → Type 0
  Advances m =
      (w : W s)
      → remaining w.decoder < bound
      → (ok : Bool) × (v : W s) × (m w ≡ done (ok, v))
        × (remaining v.decoder ≤ remaining w.decoder)
        × (ok ≡ true → remaining v.decoder < remaining w.decoder)

  decode_items-Ends :
      (fuel : ℕ) (callback : ℕ → Cmd (W s) Bool) (index : ℕ)
      → ((i : ℕ) → Advances (callback i))
      → (w : W s) → remaining w.decoder < fuel
      → remaining w.decoder < bound
      → EndsWithin remaining bound (remaining w.decoder) (decode_items s fuel callback index w)
  unfolding decode_items
  decode_items-Ends zero callback index each w h b = absurd (omega arith)
  decode_items-Ends (suc fuel) callback index each w h b =
      elim (Bool-cases (s.dec.is_in_list w.decoder)) [
        | inr over ↦ rw (over) (_, _, refl, consumes.list_end_keeps w.decoder)
        | inl inside ↦
            let (ok, v, e, le, lt) = each index w b in
            elim (Bool-cases ok) [
              | inr bad ↦ rw (inside, e, bad) (false, v, refl, le)
              | inl fine ↦
                  let shorter = lt fine in
                  let (a, u, f, le') =
                    decode_items-Ends fuel callback (index + 1) each v (omega arith)
                      (omega arith) in
                  rw (inside, e, fine, f) (a, u, refl, omega arith)
            ]
      ]

  pub decode_list-Ends :
      (callback : ℕ → Cmd (W s) Bool)
      → bound ≤ s.steps
      → ((i : ℕ) → Advances (callback i))
      → Ends remaining bound (decode_list s callback)
  unfolding decode_list
  decode_list-Ends callback enough each =
      both remaining bound
        (on_decoder-Ends s remaining bound s.dec.decode_list_start consumes.list_start_keeps)
        (record { runs = λ w h. decode_items-Ends s.steps callback 0 each w (omega arith) h })

  -- A name that a search can follow within the bound.
  abbrev pub Short : Option Bytes → Type 0
  Short none = Unit {0}
  Short (some key) = length key < bound

  -- A key that is read leaves less of the payload.
  decode_key-Advances :
      (id : Option ℕ) (name : Option Bytes) (w : W s)
      → Short name
      → remaining w.decoder < bound
      → (ok : Bool) × (id' : Option ℕ) × (name' : Option Bytes) × (v : W s) × (decode_key s id name
            w
          ≡ done ((ok, id', name'), v))
        × (remaining v.decoder ≤ remaining w.decoder)
        × (ok ≡ true → remaining v.decoder < remaining w.decoder)
        × Short name'
  unfolding decode_key take_number take_string
  decode_key-Advances id name w short h = elim (Option-cases (s.dec.decode_number w.decoder).0) [
    | inr (n, e) ↦ rw (e) (
      true,
      some n,
      name,
      _,
      refl,
      consumes.number_keeps w.decoder,
      (λ _. consumes.number_shrinks w.decoder n e),
      short,
    )
    | inl e ↦
        let d = (s.dec.decode_number w.decoder).1 in
        let keeps = consumes.number_keeps w.decoder in
        let keeps' = consumes.string_keeps d in
        elim (Option-cases (s.dec.decode_string d).0) [
          | inr (key, f) ↦
              let (shrinks, le) = consumes.string_shrinks d key f in
              rw (e, f) (true, id, some key, _, refl, omega arith, (λ _. omega arith), omega arith)
          | inl f ↦ rw (e, f) (false, id, name, _, refl, omega arith, (λ h. absurd (cc)), short)
        ]
  ]

  decode_entries-Ends :
      (fuel : ℕ) (callback : Option ℕ → Option Bytes → Cmd (W s) Bool)
      → ((i : Option ℕ) (n : Option Bytes) → Short n → Ends remaining bound (callback i n))
      → (id : Option ℕ) (name : Option Bytes) (w : W s) → Short name
      → remaining w.decoder < fuel
      → remaining w.decoder < bound
      → EndsWithin remaining bound (remaining w.decoder) (decode_entries s fuel callback id name w)
  unfolding decode_entries
  decode_entries-Ends zero callback each id name w short enough h = absurd (omega arith)
  decode_entries-Ends (suc fuel) callback each id name w short enough h =
      let (ok, id', name', v, e, le, shrinks, short') = decode_key-Advances id name w short h in
      elim (Bool-cases ok) [
        | inr end ↦
            rw (e, end) (let keeps = consumes.map_end_keeps v.decoder in (_, _, refl, omega arith))
        | inl key ↦
            let (good, u, f, le') = (each id' name' short').runs v (omega arith) in
            let lt = shrinks key in
            elim (Bool-cases good) [
              | inr bad ↦ rw (e, key, f, bad) (false, u, refl, omega arith)
              | inl fine ↦
                  let (b, t, g, le'') =
                    decode_entries-Ends fuel callback each id' name' u short' (omega arith)
                      (omega arith) in
                  rw (e, key, f, fine, g) (b, t, refl, omega arith)
            ]
      ]

  pub decode_map-Ends :
      (callback : Option ℕ → Option Bytes → Cmd (W s) Bool)
      → bound ≤ s.steps
      → ((i : Option ℕ) (n : Option Bytes) → Short n → Ends remaining bound (callback i n))
      → Ends remaining bound (decode_map s callback)
  unfolding decode_map
  decode_map-Ends callback enough each =
      both remaining bound
        (on_decoder-Ends s remaining bound s.dec.decode_map_start consumes.map_start_keeps)
        (record {
          runs = λ w h. decode_entries-Ends s.steps callback each none none w tt (omega arith) h;
        })
