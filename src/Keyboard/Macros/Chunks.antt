-- ===== src/Keyboard/Macros/Chunks.antt =====
-- The macro buffer as a sequence of packets of 16 bytes.
use voodoo_ps2_alps.Base.{
  ℕ, zero, suc, ◌+◌, ◌*◌, ◌≤◌, ◌≡◌, refl, ◌∙◌, ap, arith, List, [], ◌∷◌, ◌++◌, length, take, drop,
  set, set_block, sym, set_block-cons, length-drop,
}
use native.Mathlib.Nat.{suc-add, zero-add}
use voodoo_ps2_alps.Keyboard.Packets.{packet_length}

abbrev pub chunks : ℕ → List ℕ → List (List ℕ)
chunks zero bytes = []
chunks (suc n) bytes = take packet_length bytes ∷ chunks n (drop packet_length bytes)

set_block-nil : (vs : List ℕ) (i : ℕ) → set_block [] i vs ≡ []
set_block-nil [] i = refl
set_block-nil (v ∷ vs) i = set_block-nil vs (suc i)

take-set_block : (k : ℕ) (xs vs : List ℕ) (i : ℕ) → take k (set_block xs (k + i) vs) ≡ take k xs
take-set_block zero xs vs i = refl
take-set_block (suc k) [] vs i = rw (set_block-nil vs (suc k + i)) refl
take-set_block (suc k) (x ∷ xs) vs i =
    rw (suc-add k i, set_block-cons x xs vs (k + i)) (ap (λ l. x ∷ l) (take-set_block k xs vs i))

drop-set_block :
    (k : ℕ) (xs vs : List ℕ) (i : ℕ) → drop k (set_block xs (k + i) vs) ≡ set_block (drop k xs) i vs
drop-set_block zero xs vs i = ap (λ j. set_block xs j vs) (zero-add i)
drop-set_block (suc k) [] vs i = rw (set_block-nil vs (suc k + i), set_block-nil vs i) refl
drop-set_block (suc k) (x ∷ xs) vs i =
    rw (suc-add k i, set_block-cons x xs vs (k + i)) (drop-set_block k xs vs i)

take-set_block_self :
    (vs xs : List ℕ) → length vs ≤ length xs → take (length vs) (set_block xs 0 vs) ≡ vs
take-set_block_self [] xs h = refl
take-set_block_self (v ∷ vs) [] h = absurd (omega arith)
take-set_block_self (v ∷ vs) (x ∷ xs) h =
    rw (set_block-cons v xs vs 0) (ap (λ l. v ∷ l) (take-set_block_self vs xs (omega arith)))

-- A packet that is written behind n packets is the next one.
pub chunks-store :
    (n : ℕ) (bytes packet : List ℕ)
    → length packet ≡ 16
    → (n + 1) * 16 ≤ length bytes
    → chunks (suc n) (set_block bytes (n * 16) packet) ≡ chunks n bytes ++ (packet ∷ [])
chunks-store zero bytes packet e h =
    ap (λ l. l ∷ [])
      (ap (λ j. take j (set_block bytes 0 packet)) (sym e)
        ∙ take-set_block_self packet bytes (omega arith))
chunks-store (suc n) bytes packet e h =
    let at : suc n * 16 ≡ 16 + n * 16 = omega arith in
    rw (at, take-set_block 16 bytes packet (n * 16), drop-set_block 16 bytes packet (n * 16))
      (ap (λ l. take 16 bytes ∷ l)
        (chunks-store n (drop 16 bytes) packet e (omega (arith, length-drop 16 bytes))))

pub length-chunks : (n : ℕ) (bytes : List ℕ) → length (chunks n bytes) ≡ n
length-chunks zero bytes = refl
length-chunks (suc n) bytes = ap suc (length-chunks n (drop packet_length bytes))

pub chunks-before :
    (n : ℕ) (bytes packet : List ℕ) → chunks n (set_block bytes (n * 16) packet) ≡ chunks n bytes
chunks-before zero bytes packet = refl
chunks-before (suc n) bytes packet =
    let at : suc n * 16 ≡ 16 + n * 16 = omega arith in
    rw (at, take-set_block 16 bytes packet (n * 16), drop-set_block 16 bytes packet (n * 16))
      (ap (λ l. take 16 bytes ∷ l) (chunks-before n (drop 16 bytes) packet))

pub take_all : (n : ℕ) (xs : List ℕ) → length xs ≡ n → take n xs ≡ xs
take_all zero [] e = refl
take_all zero (x ∷ xs) e = absurd (omega arith)
take_all (suc n) [] e = refl
take_all (suc n) (x ∷ xs) e = ap (λ l. x ∷ l) (take_all n xs (omega arith))

-- Writing the first two bytes of the buffer is writing those of its first packet.
pub take-set_two :
    (bytes : List ℕ) (a b : ℕ)
    → take packet_length (set (set bytes 0 a) 1 b) ≡ set (set (take packet_length bytes) 0 a) 1 b
take-set_two [] a b = refl
take-set_two (x ∷ []) a b = refl
take-set_two (x ∷ y ∷ bytes) a b = refl
