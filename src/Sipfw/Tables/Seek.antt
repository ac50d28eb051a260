-- ===== src/Sipfw/Tables/Seek.antt =====
-- Where the search loops of the handlers stop, and what a write to one table changes.
use linux_program_practice.Base.{
  ℕ, suc, ◌+◌, ◌≤◌, ◌≡◌, refl, true, some, List, [], ◌∷◌, ◌++◌, arith, if◌then◌else◌, length,
}
use linux_program_practice.Base.Int.{ℤ, pos, negsuc}
use linux_program_practice.Sipfw.Types.{Rule, RuleList}
use linux_program_practice.Sipfw.Memory.{
  Live, count_at, holders, Owned, holders-set, count_at-le-holders,
}
use linux_program_practice.Sipfw.Tables.{Store, table_at, put_table, seek_ne, seek_lt, seek_same}

-- A loop that counts from `i` up to `i + length xs` stops behind `xs`.
pub seek_ne-append :
    (i n : ℕ) (xs ys : List Rule)
    → i + length xs ≡ n
    → seek_ne i (pos n) (xs ++ ys) ≡ record { before = xs; rest = ys }
unfolding seek_ne
seek_ne-append i n [] [] e = refl
seek_ne-append i n [] (y ∷ ys) e = ground arith
seek_ne-append i n (x ∷ xs) ys e = ground (arith, seek_ne-append (suc i) n xs ys (omega arith))

pub seek_lt-append :
    (i n : ℕ) (xs ys : List Rule)
    → i + length xs ≡ n
    → seek_lt i (pos n) (xs ++ ys) ≡ record { before = xs; rest = ys }
unfolding seek_lt
seek_lt-append i n [] [] e = refl
seek_lt-append i n [] (y ∷ ys) e = ground arith
seek_lt-append i n (x ∷ xs) ys e = ground (arith, seek_lt-append (suc i) n xs ys (omega arith))

-- The cursor splits the chain.
pub seek_ne_splits :
    (i : ℕ) (number : ℤ) (rs : List Rule)
    → (seek_ne i number rs).before ++ (seek_ne i number rs).rest ≡ rs
unfolding seek_ne
seek_ne_splits i number [] = refl
seek_ne_splits i number (r ∷ rs) = ground (arith, seek_ne_splits (suc i) number rs)

pub seek_lt_splits :
    (i : ℕ) (number : ℤ) (rs : List Rule)
    → (seek_lt i number rs).before ++ (seek_lt i number rs).rest ≡ rs
unfolding seek_lt
seek_lt_splits i number [] = refl
seek_lt_splits i number (r ∷ rs) = ground (arith, seek_lt_splits (suc i) number rs)

pub seek_same_splits :
    (rule : Rule) (rs : List Rule) → (seek_same rule rs).before ++ (seek_same rule rs).rest ≡ rs
unfolding seek_same
seek_same_splits rule [] = refl
seek_same_splits rule (r ∷ rs) = ground (arith, seek_same_splits rule rs)

-- The same laws at an index that is an `int`.
pub holders-put_table :
    (a : ℕ) (ts : List RuleList) (i : ℤ) (l m : RuleList)
    → table_at ts i ≡ some l
    → holders a (put_table ts i m) + count_at a l.rules ≡ holders a ts + count_at a m.rules
holders-put_table a ts (pos i) l m h = holders-set a ts i l m h
holders-put_table a ts (negsuc i) l m h = cc

pub count_at-table_at :
    (a : ℕ) (ts : List RuleList) (i : ℤ) (l : RuleList)
    → table_at ts i ≡ some l
    → count_at a l.rules ≤ holders a ts
count_at-table_at a ts (pos i) l h = count_at-le-holders a ts i l h
count_at-table_at a ts (negsuc i) l h = cc

-- A handler gets a node of its own: allocated, and in no chain.
pub record Fresh (rule : Rule) (s : Store) : Type 0 where
  pub allocated : s.live rule.addr ≡ true
  pub unlinked : holders rule.addr s.tables ≡ 0

-- A write of `m` over the table `l` that no more than exchanges nodes keeps ownership.
pub put_table-Owned :
    (ts : List RuleList) (live later : Live) (i : ℤ) (l m : RuleList)
    → table_at ts i ≡ some l
    → ((a : ℕ)
        → holders a ts + count_at a m.rules ≤ count_at a l.rules + (if later a then 1 else 0))
    → Owned (put_table ts i m) later
put_table-Owned ts live later i l m h k a = omega (arith, holders-put_table a ts i l m h, k a)
