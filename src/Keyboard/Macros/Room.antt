-- ===== src/Keyboard/Macros/Room.antt =====
-- The macro buffer, which `init` makes as long as the longest sequence of a macro, has room.
use voodoo_ps2_alps.Base.{
  ℕ, ◌+◌, ◌*◌, ◌-◌, ◌≤◌, ◌<◌, ◌≡◌, refl, arith, List, [], ◌∷◌, length, length-set, length-set_block,
  take, set, at, ◌∙◌, leb, if◌then◌else◌,
}
use voodoo_ps2_alps.Keyboard.Packets.{packet_length, packet_time}
use voodoo_ps2_alps.Keyboard.Macros.{
  Host, Macros, Match, no_match, partial_match, exact_match, dispatch_invert_buffer, expire,
  conclude, invert_macros, store, inverted, find_macro, match_macro, or_else,
}
use voodoo_ps2_alps.Keyboard.Load.{longest}

longest-most : (macros : List (List ℕ)) (most : ℕ) → most ≤ longest macros most
unfolding longest
longest-most [] most = omega arith
longest-most (macro ∷ macros) most =
    let len = length macro - 8 in
    ground (arith, longest-most macros (if leb len most then most else len))

longest-step :
    (macro : List ℕ) (macros : List (List ℕ)) (most : ℕ)
    → length macro - 8 ≤ longest (macro ∷ macros) most
unfolding longest
longest-step macro macros most =
    let len = length macro - 8 in
    ground (arith, longest-most macros (if leb len most then most else len))

-- A sequence that is still to be completed is shorter than a macro.
find_macro-partial :
    (state : ℕ) (buffer : List ℕ) (n : ℕ) (macros : List (List ℕ)) (most : ℕ)
    → find_macro state buffer n macros ≡ partial_match
    → n * 2 < longest macros most
unfolding find_macro or_else match_macro longest
find_macro-partial state buffer n [] most e = absurd (ground arith)
find_macro-partial state buffer n (macro ∷ macros) most e =
    let len = length macro - 8 in
    ground (
      arith,
      find_macro-partial state buffer n macros (if leb len most then most else len),
      longest-most macros (if leb len most then most else len),
    )

-- The buffer of `init`, with fewer packets in it than would fill it
pub record Fits (macros : List (List ℕ)) (m : Macros) : Type 0 where
  pub size : length m.buffer ≡ longest macros 0 * packet_length
  pub room : m.current + 1 ≤ longest macros 0

module _ {S : Type 0} (h : Host S) (macros : List (List ℕ)) (max_time : ℕ) where
  flush-Fits : (m : Macros) (s : S) → Fits macros m → Fits macros (dispatch_invert_buffer h m s).0
  unfolding dispatch_invert_buffer
  flush-Fits m s f = ground arith

  expire-Fits :
      (now : ℕ) (m : Macros) (s : S) → Fits macros m → Fits macros (expire h max_time now m s).0
  unfolding expire
  expire-Fits now m s f = ground (arith, flush-Fits m s f)

  conclude-Fits :
      (x : Match) (m : Macros) (s : S)
      → (x ≡ partial_match → (m.current + 1) * 2 < longest macros 0)
      → Fits macros m
      → Fits macros (conclude h max_time x m s).0
  unfolding conclude inverted
  conclude-Fits (exact_match macro) m s p f = ground (
    arith,
    length-set (set m.buffer 0 (at macro 2)) 1 (at macro 3),
    length-set m.buffer 0 (at macro 2),
  )
  conclude-Fits partial_match m s p f = ground (arith, p refl)
  conclude-Fits no_match m s p f = ground (arith, flush-Fits m s f)

  -- Whatever packet comes, the buffer that init makes keeps room for one more packet, so the copy
  -- of the next packet stays inside it.
  pub invert_macros-Fits :
      (packet : List ℕ) (m : Macros) (s : S)
      → Fits macros m
      → Fits macros (invert_macros h macros max_time packet m s).0
  unfolding invert_macros store
  invert_macros-Fits packet m s f =
      let live = expire h max_time (packet_time packet) m s in
      let g = expire-Fits (packet_time packet) m s f in
      let stored : Fits macros (store packet live.0) = record {
        size =
            length-set_block (take packet_length packet) live.0.buffer (live.0.current * 16)
            ∙ g.size;
        room = g.room;
      } in
      let x =
        find_macro (h.modifier_state live.1) (store packet live.0).buffer (live.0.current + 1)
          macros in
      let shorter =
        find_macro-partial (h.modifier_state live.1) (store packet live.0).buffer
          (live.0.current + 1) macros 0 in
      conclude-Fits x (store packet live.0) live.1 shorter stored
