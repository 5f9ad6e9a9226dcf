-- ===== src/Keyboard/Macros/Kept.antt =====
-- The macros keep every packet, in order, until they dispatch it or replace it by an inversion.
use voodoo_ps2_alps.Base.{
  ℕ, zero, suc, ◌+◌, ◌*◌, ◌≤◌, ◌≡◌, refl, ◌∙◌, subst, ap, sym, arith, List, [], ◌∷◌, ◌++◌,
  append-nil, append_assoc, Bool, true, false, length, take, drop, at, set, nz, if◌then◌else◌,
}
use voodoo_ps2_alps.Keyboard.Packets.{packet_length, packet_time}
use voodoo_ps2_alps.Keyboard.Macros.Matching.{Replaces, find_macro-exact}
use voodoo_ps2_alps.Keyboard.Macros.Chunks.{
  chunks, chunks-store, chunks-before, take_all, take-set_two,
}
use voodoo_ps2_alps.Keyboard.Macros.{
  Host, Macros, Match, no_match, partial_match, exact_match, dispatch_buffer,
  dispatch_invert_buffer, expire, conclude, invert_macros, store, inverted, find_macro,
  buffered_packet,
}

-- What the macros did to the driver
pub data Step : Type 0 where
  send : (packet : List ℕ) → Step
  set_timer : (time : ℕ) → Step
  cancel_timer : Step

module _ {S : Type 0} (h : Host S) where
  unfoldable pub play : List Step → S → S
  play [] s = s
  play (send packet ∷ steps) s = play steps (h.dispatch packet s)
  play (set_timer time ∷ steps) s = play steps (h.set_macro_timer time s)
  play (cancel_timer ∷ steps) s = play steps (h.cancel_macro_timer s)

-- The packets that were dispatched
unfoldable pub sent : List Step → List (List ℕ)
sent [] = []
sent (send packet ∷ steps) = packet ∷ sent steps
sent (set_timer time ∷ steps) = sent steps
sent (cancel_timer ∷ steps) = sent steps

-- The packets that are held back
unfoldable pub held : Macros → List (List ℕ)
held m = chunks m.current m.buffer

sends : ℕ → List ℕ → List Step
sends zero bytes = []
sends (suc n) bytes = send (take packet_length bytes) ∷ sends n (drop packet_length bytes)

sent-sends :
    (n : ℕ) (bytes : List ℕ) (more : List Step)
    → sent (sends n bytes ++ more) ≡ chunks n bytes ++ sent more
unfolding sends sent
sent-sends zero bytes more = refl
sent-sends (suc n) bytes more =
    ap (λ l. take packet_length bytes ∷ l) (sent-sends n (drop packet_length bytes) more)

module _ {S : Type 0} (h : Host S) where
  play-sends :
      (n : ℕ) (bytes : List ℕ) (more : List Step) (s : S)
      → play h (sends n bytes ++ more) s ≡ play h more (dispatch_buffer h n bytes s)
  unfolding sends play dispatch_buffer
  play-sends zero bytes more s = refl
  play-sends (suc n) bytes more s =
      play-sends n (drop packet_length bytes) more (h.dispatch (take packet_length bytes) s)

  flush_steps : Macros → List Step → List Step
  flush_steps m more = sends m.current m.buffer ++ (cancel_timer ∷ more)

  play-flush :
      (m : Macros) (more : List Step) (s : S)
      → play h (flush_steps m more) s ≡ play h more (dispatch_invert_buffer h m s).1
  unfolding flush_steps dispatch_invert_buffer
  play-flush m more s = play-sends m.current m.buffer (cancel_timer ∷ more) s ∙ unfold play in refl

  sent-flush : (m : Macros) (more : List Step) → sent (flush_steps m more) ≡ held m ++ sent more
  unfolding flush_steps held
  sent-flush m more = sent-sends m.current m.buffer (cancel_timer ∷ more) ∙ unfold sent in refl

-- The output of a macro is its first packet, with other key data.
pub output_of : List ℕ → List (List ℕ) → List ℕ
output_of macro [] = []
output_of macro (packet ∷ packets) = set (set packet 0 (at macro 2)) 1 (at macro 3)

-- What became of the packets that were held back, and of the one that came: they are all kept, in
-- their order (those that were dispatched, those that are held back now, and the one that came if
-- it is left to the caller), or the later of them are replaced by the output of a macro.
pub data Accounted {S : Type 0} (h : Host S) (macros : List (List ℕ)) (m : Macros) (packet : List ℕ)
    (s : S) (r : Macros × S × Bool) : Type 0 where
  kept :
      (steps : List Step)
      → r.1 ≡ play h steps s
      → sent steps ++ (held r.0 ++ (if r.2 then [] else packet ∷ [])) ≡ held m ++ (packet ∷ [])
      → Accounted h macros m packet s r
  replaced :
      (early : List Step) (later : List (List ℕ)) (macro : List ℕ)
      → held m ++ (packet ∷ []) ≡ sent early ++ later
      → Replaces (h.modifier_state (play h early s)) macro macros later
      → r.1 ≡ play h (early ++ (send (output_of macro later) ∷ cancel_timer ∷ [])) s
      → r.2 ≡ true
      → held r.0 ≡ []
      → Accounted h macros m packet s r

-- The macro buffer has room for one more packet.
abbrev pub HasRoom : Macros → Type 0
HasRoom m = (m.current + 1) * packet_length ≤ length m.buffer

-- After a late packet, or without one: nothing is lost.
record Live {S : Type 0} (h : Host S) (m : Macros) (s : S) (r : Macros × S) : Type 0 where
  early : List Step
  played : r.1 ≡ play h early s
  all_kept : sent early ++ held r.0 ≡ held m
  same_buffer : r.0.buffer ≡ m.buffer
  fewer : r.0.current ≤ m.current

module _ {S : Type 0} (h : Host S) (m : Macros) (s : S) where
  unchanged-Live : Live h m s (m, s)
  unfolding play sent
  unchanged-Live = record {
    early = [];
    played = refl;
    all_kept = refl;
    same_buffer = refl;
    fewer = omega arith;
  }

  flush-Live : Live h m s (dispatch_invert_buffer h m s)
  unfolding dispatch_invert_buffer held sent play
  flush-Live = record {
    early = flush_steps h m [];
    played = sym (play-flush h m [] s);
    all_kept = append-nil (sent (flush_steps h m [])) ∙ sent-flush h m [] ∙ append-nil (held m);
    same_buffer = refl;
    fewer = omega arith;
  }

  if-Live : (late : Bool) → Live h m s (if late then dispatch_invert_buffer h m s else (m, s))
  if-Live true = flush-Live
  if-Live false = unchanged-Live

  expire-Live : (max_time now : ℕ) → Live h m s (expire h max_time now m s)
  unfolding expire
  expire-Live max_time now = if-Live _

play-append :
    {S : Type 0} (h : Host S) (a b : List Step) (s : S) → play h (a ++ b) s ≡ play h b (play h a s)
unfolding play
play-append h [] b s = refl
play-append h (send packet ∷ a) b s = play-append h a b (h.dispatch packet s)
play-append h (set_timer time ∷ a) b s = play-append h a b (h.set_macro_timer time s)
play-append h (cancel_timer ∷ a) b s = play-append h a b (h.cancel_macro_timer s)

sent-append : (a b : List Step) → sent (a ++ b) ≡ sent a ++ sent b
unfolding sent
sent-append [] b = refl
sent-append (send packet ∷ a) b = ap (λ l. packet ∷ l) (sent-append a b)
sent-append (set_timer time ∷ a) b = sent-append a b
sent-append (cancel_timer ∷ a) b = sent-append a b

plus_one : (n : ℕ) → n + 1 ≡ suc n
plus_one n = omega arith

module _ {S : Type 0} (h : Host S) (macros : List (List ℕ)) (max_time : ℕ) (packet : List ℕ) where
  module _ (m0 : Macros) (s0 : S) (m1 : Macros) (s1 : S) (l : Live h m0 s0 (m1, s1))
      (size : length packet ≡ packet_length) (room : HasRoom m0) where
    stored : chunks (suc m1.current) (store packet m1).buffer ≡ held m1 ++ (packet ∷ [])
    unfolding store held
    stored = rw (take_all 16 packet size) (
        chunks-store m1.current m1.buffer packet size
          (omega (arith, l.fewer, ap length l.same_buffer)))

    held-store : held (store packet m1) ≡ held m1
    unfolding store held
    held-store = chunks-before m1.current m1.buffer (take packet_length packet)

    whole : sent l.early ++ (held m1 ++ (packet ∷ [])) ≡ held m0 ++ (packet ∷ [])
    whole =
        sym (append_assoc (sent l.early) (held m1) (packet ∷ []))
        ∙ ap (λ (t : List (List ℕ)). t ++ (packet ∷ [])) l.all_kept

    later_steps : (steps : List Step) → play h steps s1 ≡ play h (l.early ++ steps) s0
    later_steps steps = ap (play h steps) l.played ∙ sym (play-append h l.early steps s0)

    abbrev sequence : List (List ℕ)
    sequence = chunks (suc m1.current) (store packet m1).buffer

    output_lem :
        (macro : List ℕ)
        → buffered_packet (inverted macro (store packet m1)) 0 ≡ output_of macro sequence
    unfolding buffered_packet inverted output_of
    output_lem macro = take-set_two (store packet m1).buffer (at macro 2) (at macro 3)

    conclude-Accounted :
        (x : Match)
        → find_macro (h.modifier_state s1) (store packet m1).buffer (suc m1.current) macros ≡ x
        → Accounted h macros m0 packet s0 (conclude h max_time x (store packet m1) s1)
    unfolding conclude store
    conclude-Accounted (exact_match macro) e =
        replaced l.early sequence macro
          (sym (ap (λ (t : List (List ℕ)). sent l.early ++ t) stored ∙ whole))
          (subst (λ (t : S). Replaces (h.modifier_state t) macro macros sequence) l.played
            (find_macro-exact (h.modifier_state s1) (store packet m1).buffer m1.current macros macro
              e))
          (unfold play in
            (ap (λ (t : List ℕ). h.cancel_macro_timer (h.dispatch t s1)) (output_lem macro)
              ∙ later_steps (send (output_of macro sequence) ∷ cancel_timer ∷ [])))
          refl (unfold held inverted in refl)
    conclude-Accounted partial_match e =
        kept (l.early ++ (cancel_timer ∷ set_timer max_time ∷ []))
          (unfold play in later_steps (cancel_timer ∷ set_timer max_time ∷ []))
          (rw (sent-append l.early (cancel_timer ∷ set_timer max_time ∷ [])) (
            unfold sent held in
            rw (append-nil, append-nil, plus_one m1.current)
              (ap (λ (t : List (List ℕ)). sent l.early ++ t) stored ∙ whole)))
    conclude-Accounted no_match e =
        let f = if-Live h (store packet m1) s1 (nz (store packet m1).current) in
        kept (l.early ++ f.early) (f.played ∙ later_steps f.early) (
          rw
            (
              sent-append l.early f.early,
              append_assoc,
              ← append_assoc (sent f.early),
              f.all_kept,
              held-store,
            )
            whole)

-- A packet of 16 bytes that comes while the macro buffer has room for it: no packet is lost,
-- doubled or moved by the macros. Either those dispatched, those held back and the one left to the
-- caller are in a row those held back before and the new one; or these are some that were
-- dispatched and then a sequence that a macro of the table describes, which is replaced by one
-- packet, the macro's output with the time of the first, when the modifiers are as the macro asks
-- for.
pub invert_macros-Accounted :
    {S : Type 0} (h : Host S) (macros : List (List ℕ)) (max_time : ℕ) (packet : List ℕ) (m : Macros)
    (s : S)
    → length packet ≡ packet_length
    → HasRoom m
    → Accounted h macros m packet s (invert_macros h macros max_time packet m s)
unfolding invert_macros
invert_macros-Accounted h macros max_time packet m s size room =
    let live = expire h max_time (packet_time packet) m s in
    rw (plus_one live.0.current) (
      conclude-Accounted h macros max_time packet m s live.0 live.1
        (expire-Live h m s max_time (packet_time packet)) size room
        (find_macro (h.modifier_state live.1) (store packet live.0).buffer (suc live.0.current)
          macros)
        refl)
