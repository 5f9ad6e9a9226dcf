-- ===== src/Keyboard/Macros/Matching.antt =====
-- What an exact match of the macro table means.
use voodoo_ps2_alps.Base.{
  ℕ, zero, suc, ◌*◌, ◌-◌, ◌≤◌, ◌≡◌, refl, ◌∙◌, subst, sym, arith, List, [], ◌∷◌, true, length, take,
  drop, length-drop, at,
}
use voodoo_ps2_alps.Keyboard.Packets.{packet_length, packet_key_data_length}
use voodoo_ps2_alps.Keyboard.Macros.{
  Match, no_match, partial_match, exact_match, compare_macro, modifiers_match, match_macro, or_else,
  find_macro, prefix_bytes,
}
use voodoo_ps2_alps.Keyboard.Macros.Chunks.{chunks}

-- The key data of packets, in a row
pub keys : List (List ℕ) → List ℕ
keys [] = []
keys (packet ∷ packets) = at packet 0 ∷ at packet 1 ∷ keys packets

pub data Among (macro : List ℕ) : List (List ℕ) → Type 0 where
  here : {rest : List (List ℕ)} → Among macro (macro ∷ rest)
  there : {first : List ℕ} {rest : List (List ℕ)} → Among macro rest → Among macro (first ∷ rest)

-- The macro is in the table, its sequence is the key data of the packets, and the state of the
-- modifiers is the one it asks for.
pub record Replaces (state : ℕ) (macro : List ℕ) (macros packets : List (List ℕ)) : Type 0 where
  pub in_table : Among macro macros
  pub same_keys : keys packets ≡ drop prefix_bytes macro
  pub modifiers : modifiers_match state macro ≡ true

at-take :
    (bytes : List ℕ)
    → (at (take packet_length bytes) 0 ≡ at bytes 0)
      × (at (take packet_length bytes) 1 ≡ at bytes 1)
at-take [] = (refl, refl)
at-take (x ∷ []) = (refl, refl)
at-take (x ∷ y ∷ bytes) = (refl, refl)

uncons :
    (bytes : List ℕ)
    → 2 ≤ length bytes
    → bytes ≡ at bytes 0 ∷ at bytes 1 ∷ drop packet_key_data_length bytes
uncons [] h = absurd (omega arith)
uncons (x ∷ []) h = absurd (omega arith)
uncons (x ∷ y ∷ bytes) h = refl

-- The comparison looks at all the key data.
pub compare_macro_lem :
    (count : ℕ) (buffer bytes : List ℕ)
    → length bytes ≡ count * packet_key_data_length
    → compare_macro buffer bytes count ≡ true
    → keys (chunks count buffer) ≡ bytes
unfolding compare_macro keys
compare_macro_lem zero buffer [] e h = refl
compare_macro_lem zero buffer (x ∷ bytes) e h = absurd (omega arith)
compare_macro_lem (suc count) buffer bytes e h =
    let first = at-take buffer in
    let b0 : at buffer 0 ≡ at bytes 0 = ground arith in
    let b1 : at buffer 1 ≡ at bytes 1 = ground arith in
    let more : compare_macro (drop packet_length buffer) (drop packet_key_data_length bytes) count
        ≡ true =
      ground arith in
    let rest =
      compare_macro_lem count (drop packet_length buffer) (drop packet_key_data_length bytes)
        (omega (arith, length-drop 2 bytes)) more in
    rw (first.0, first.1, b0, b1, rest) (sym (uncons bytes (omega arith)))

module _ (state : ℕ) (buffer : List ℕ) (n : ℕ) where
  match_macro-exact :
      (macro found : List ℕ) (rest : List (List ℕ))
      → match_macro state buffer (suc n) macro ≡ exact_match found
      → Replaces state found (macro ∷ rest) (chunks (suc n) buffer)
  unfolding match_macro
  match_macro-exact macro found rest h =
      let same : macro ≡ found = ground arith in
      let compared : compare_macro buffer (drop prefix_bytes macro) (suc n) ≡ true = ground arith in
      let long : length macro - prefix_bytes ≡ suc n * packet_key_data_length = ground arith in
      let mods : modifiers_match state macro ≡ true = ground arith in
      let size : length (drop prefix_bytes macro) ≡ suc n * packet_key_data_length =
        omega (arith, length-drop prefix_bytes macro) in
      let ok : Replaces state macro (macro ∷ rest) (chunks (suc n) buffer) = record {
        in_table = here;
        same_keys = compare_macro_lem (suc n) buffer (drop prefix_bytes macro) size compared;
        modifiers = mods;
      } in
      subst (λ f. Replaces state f (macro ∷ rest) (chunks (suc n) buffer)) same ok

  next_macro :
      {first found : List ℕ} {macros : List (List ℕ)} {packets : List (List ℕ)}
      → Replaces state found macros packets
      → Replaces state found (first ∷ macros) packets
  next_macro r = record {
    in_table = there r.in_table;
    same_keys = r.same_keys;
    modifiers = r.modifiers;
  }

  pub find_macro-exact :
      (macros : List (List ℕ)) (found : List ℕ)
      → find_macro state buffer (suc n) macros ≡ exact_match found
      → Replaces state found macros (chunks (suc n) buffer)
  unfolding find_macro or_else
  find_macro-exact [] found h = absurd (ground arith)
  find_macro-exact (macro ∷ macros) found h =
      by_first (λ k. find_macro-exact macros found k) (match_macro state buffer (suc n) macro) refl
        h
    where
      by_first :
          (find_macro state buffer (suc n) macros ≡ exact_match found
            → Replaces state found macros (chunks (suc n) buffer))
          → (x : Match) → match_macro state buffer (suc n) macro ≡ x
          → or_else x (find_macro state buffer (suc n) macros) ≡ exact_match found
          → Replaces state found (macro ∷ macros) (chunks (suc n) buffer)
      by_first later no_match e o = next_macro (later o)
      by_first later partial_match e o = absurd (ground arith)
      by_first later (exact_match other) e o = match_macro-exact macro found macros (e ∙ o)
