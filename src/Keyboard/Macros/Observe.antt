-- ===== src/Keyboard/Macros/Observe.antt =====
-- What the driver's own operations leave alone, the macros leave alone.
use voodoo_ps2_alps.Base.{
  ℕ, zero, suc, ◌+◌, ◌≡◌, refl, ◌∙◌, List, Bool, true, false, drop, take, nz, if◌then◌else◌,
}
use voodoo_ps2_alps.Keyboard.Packets.{packet_length, packet_time}
use voodoo_ps2_alps.Keyboard.Macros.{
  Host, Macros, Match, no_match, partial_match, exact_match, dispatch_buffer,
  dispatch_invert_buffer, expire, conclude, invert_macros, store, inverted, buffered_packet,
  find_macro,
}

module _ {S A : Type 0} (h : Host S) (see : S → A)
    (dispatch_same : (packet : List ℕ) (s : S) → see (h.dispatch packet s) ≡ see s)
    (set_same : (time : ℕ) (s : S) → see (h.set_macro_timer time s) ≡ see s)
    (cancel_same : (s : S) → see (h.cancel_macro_timer s) ≡ see s) where
  buffer_same : (n : ℕ) (bytes : List ℕ) (s : S) → see (dispatch_buffer h n bytes s) ≡ see s
  unfolding dispatch_buffer
  buffer_same zero bytes s = refl
  buffer_same (suc n) bytes s =
      buffer_same n (drop packet_length bytes) (h.dispatch (take packet_length bytes) s)
      ∙ dispatch_same (take packet_length bytes) s

  flush_same : (m : Macros) (s : S) → see (dispatch_invert_buffer h m s).1 ≡ see s
  unfolding dispatch_invert_buffer
  flush_same m s =
      cancel_same (dispatch_buffer h m.current m.buffer s) ∙ buffer_same m.current m.buffer s

  flush_if_same :
      (b : Bool) (m : Macros) (s : S)
      → see (if b then dispatch_invert_buffer h m s else (m, s)).1 ≡ see s
  flush_if_same true m s = flush_same m s
  flush_if_same false m s = refl

  pub expire_same :
      (max_time now : ℕ) (m : Macros) (s : S) → see (expire h max_time now m s).1 ≡ see s
  unfolding expire
  expire_same max_time now m s = flush_if_same _ m s

  conclude_same :
      (max_time : ℕ) (x : Match) (m : Macros) (s : S) → see (conclude h max_time x m s).1 ≡ see s
  unfolding conclude
  conclude_same max_time (exact_match macro) m s =
      let packet = buffered_packet (inverted macro m) 0 in
      cancel_same (h.dispatch packet s) ∙ dispatch_same packet s
  conclude_same max_time partial_match m s =
      set_same max_time (h.cancel_macro_timer s) ∙ cancel_same s
  conclude_same max_time no_match m s = flush_if_same (nz m.current) m s

  pub invert_same :
      (macros : List (List ℕ)) (max_time : ℕ) (packet : List ℕ) (m : Macros) (s : S)
      → see (invert_macros h macros max_time packet m s).1 ≡ see s
  unfolding invert_macros
  invert_same macros max_time packet m s =
      let live = expire h max_time (packet_time packet) m s in
      let m' = store packet live.0 in
      conclude_same max_time
        (find_macro (h.modifier_state live.1) m'.buffer (m'.current + 1) macros) m' live.1
      ∙ expire_same max_time (packet_time packet) m s
