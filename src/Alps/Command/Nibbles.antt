-- ===== src/Alps/Command/Nibbles.antt =====
-- The tables of nibble commands: what is sent for a nibble, and what it can be read back as.
use voodoo_ps2_alps.Base.{
  ℕ, zero, suc, ◌+◌, ◌<◌, ◌≤◌, List, [], ◌∷◌, Bool, true, false, Option, none, some, if◌then◌else◌,
  ◌==◌, ◌&&◌, ◌≡◌, refl, arith, length, subst, sym, get_or, leb, leb→le, ◌⊎◌, inl, inr,
}
use voodoo_ps2_alps.Alps.Types.{NibbleCommand}
use voodoo_ps2_alps.Alps.Command.{
  Item, say, hear, row_items, alps_v3_nibble_commands, alps_v4_nibble_commands,
  alps_v6_nibble_commands,
}

-- Whether two requests are the same
abbrev same_items : List Item → List Item → Bool
same_items [] [] = true
same_items (say a ∷ xs) (say b ∷ ys) = a == b && same_items xs ys
same_items (hear ∷ xs) (hear ∷ ys) = same_items xs ys
same_items _ _ = false

abbrev same_request : Option (List Item) → List Item → Bool
same_request none items = false
same_request (some xs) items = same_items xs items

-- The receiver's view: the first row of a table, from number `i` on, whose request is the one seen
unfoldable pub read_nibble : List NibbleCommand → ℕ → List Item → Option ℕ
unfolding row_items
read_nibble [] i items = none
read_nibble (row ∷ rows) i items =
    if same_request (row_items row) items then some i else read_nibble rows (i + 1) items

-- What a nibble is sent as, by a table: at most two commands, which are read back as the nibble
pub record IsRow (table : List NibbleCommand) (n : ℕ) (row : Option (List Item)) : Type 0 where
  pub items : List Item
  pub found : row ≡ some items
  pub short : length items ≤ 2
  pub read_back : read_nibble table 0 items ≡ some n

-- The same as a test
abbrev is_some : Option ℕ → ℕ → Bool
is_some none n = false
is_some (some m) n = m == n

abbrev row_ok : List NibbleCommand → ℕ → Option (List Item) → Bool
row_ok table n none = false
row_ok table n (some items) = leb (length items) 2 && is_some (read_nibble table 0 items) n

some_of : (o : Option ℕ) (n : ℕ) → is_some o n ≡ true → o ≡ some n
some_of none n h = ground arith
some_of (some m) n h = ground arith

and_left : (a b : Bool) → (a && b) ≡ true → a ≡ true
and_left a b h = ground arith

and_right : (a b : Bool) → (a && b) ≡ true → b ≡ true
and_right a b h = ground arith

row_ok-IsRow :
    (table : List NibbleCommand) (n : ℕ) (row : Option (List Item))
    → row_ok table n row ≡ true
    → IsRow table n row
row_ok-IsRow table n none h = ground arith
row_ok-IsRow table n (some items) h = record {
  items = items;
  found = refl;
  short =
      leb→le (length items) 2
        (and_left (leb (length items) 2) (is_some (read_nibble table 0 items) n) h);
  read_back =
      some_of (read_nibble table 0 items) n
        (and_right (leb (length items) 2) (is_some (read_nibble table 0 items) n) h);
}

abbrev pub table_row : List NibbleCommand → ℕ → Option (List Item)
table_row table n = row_items (get_or table n (record { command = 0; argument = 0 }))

-- The test on the rows below `n`
rows_ok : List NibbleCommand → ℕ → Bool
unfolding row_items read_nibble
rows_ok table zero = true
rows_ok table (suc n) = row_ok table n (table_row table n) && rows_ok table n

rows_ok_below :
    (table : List NibbleCommand) (n i : ℕ)
    → rows_ok table n ≡ true
    → i < n
    → row_ok table i (table_row table i) ≡ true
unfolding rows_ok
rows_ok_below table zero i h p = absurd (omega arith)
rows_ok_below table (suc n) i h p = elim (last_or_below i n p) [
  | inl e ↦
      subst (λ (k : ℕ). row_ok table k (table_row table k) ≡ true) (sym e)
        (and_left (row_ok table n (table_row table n)) (rows_ok table n) h)
  | inr q ↦
      rows_ok_below table n i (and_right (row_ok table n (table_row table n)) (rows_ok table n) h) q
]
  where
    last_or_below : (i n : ℕ) → i < suc n → (i ≡ n) ⊎ (i < n)
    last_or_below i n p = ground arith

-- With the tables for V3 and for V4, every nibble is sent as a request of at most two commands, as
-- the request object has room for, and the receiver reads the nibble back from these commands.
pub nibble_roundtrip :
    (n : ℕ)
    → n < 16
    → IsRow alps_v3_nibble_commands n (table_row alps_v3_nibble_commands n)
      × IsRow alps_v4_nibble_commands n (table_row alps_v4_nibble_commands n)
unfolding rows_ok alps_v3_nibble_commands alps_v4_nibble_commands
nibble_roundtrip n h = (
  row_ok-IsRow alps_v3_nibble_commands n (table_row alps_v3_nibble_commands n)
      (rows_ok_below alps_v3_nibble_commands 16 n refl h),
  row_ok-IsRow alps_v4_nibble_commands n (table_row alps_v4_nibble_commands n)
      (rows_ok_below alps_v4_nibble_commands 16 n refl h),
)

-- With the table for V6, the nibbles 1 to 7 are all sent as the same request: the sample rates that
-- tell them apart are not sent, since their rows lack the flag for it.
pub nibble_v6_alike :
    (n : ℕ) → n < 7 → table_row alps_v6_nibble_commands (n + 1) ≡ some (say 0xf3 ∷ [])
unfolding row_items alps_v6_nibble_commands
nibble_v6_alike zero h = refl
nibble_v6_alike (suc zero) h = refl
nibble_v6_alike (suc (suc zero)) h = refl
nibble_v6_alike (suc (suc (suc zero))) h = refl
nibble_v6_alike (suc (suc (suc (suc zero)))) h = refl
nibble_v6_alike (suc (suc (suc (suc (suc zero))))) h = refl
nibble_v6_alike (suc (suc (suc (suc (suc (suc zero)))))) h = refl
nibble_v6_alike (suc (suc (suc (suc (suc (suc (suc n))))))) h = absurd (omega arith)
