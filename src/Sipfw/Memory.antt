-- ===== src/Sipfw/Memory.antt =====
-- The allocator that the rule tables use (kmalloc and kfree are the kernel's): which addresses are
-- allocated. To free an address that is not allocated is a fault. `holders` counts the nodes of the
-- tables that lie at an address, so ownership is arithmetic.
use linux_program_practice.Base.{
  ℕ, zero, suc, ◌+◌, ◌≤◌, ◌≡◌, ◌≢◌, Bool, false, List, [], ◌∷◌, ◌++◌, Option, none, some, arith,
  ◌==◌, if◌then◌else◌, get_elem?, set,
}
use linux_program_practice.Sipfw.Types.{Rule, RuleList}

-- The allocated addresses.
abbrev pub Live : Type 0
Live = ℕ → Bool

abbrev pub mark : ℕ → Bool → Live → Live
mark a b live x = if x == a then b else live x

-- `none`: the address was free already.
abbrev pub kfree : ℕ → Live → Option Live
kfree a live = if live a then some (mark a false live) else none

-- How many nodes of a list, and of all the tables, lie at the address `a`.
abbrev pub count_at : ℕ → List Rule → ℕ
count_at a [] = 0
count_at a (r ∷ rs) = (if r.addr == a then 1 else 0) + count_at a rs

abbrev pub holders : ℕ → List RuleList → ℕ
holders a [] = 0
holders a (l ∷ ls) = count_at a l.rules + holders a ls

-- No node is in two places, and every node is allocated.
abbrev pub Owned : List RuleList → Live → Type 0
Owned tables live = (a : ℕ) → holders a tables ≤ (if live a then 1 else 0)

pub count_at-append :
    (a : ℕ) (xs ys : List Rule) → count_at a (xs ++ ys) ≡ count_at a xs + count_at a ys
count_at-append a [] ys = omega arith
count_at-append a (x ∷ xs) ys = omega (arith, count_at-append a xs ys)

-- What a write to one table changes.
pub holders-set :
    (a : ℕ) (ts : List RuleList) (i : ℕ) (l m : RuleList)
    → get_elem? ts i ≡ some l
    → holders a (set ts i m) + count_at a l.rules ≡ holders a ts + count_at a m.rules
holders-set a [] i l m h = cc
holders-set a (t ∷ ts) zero l m h = ground arith
holders-set a (t ∷ ts) (suc i) l m h = omega (arith, holders-set a ts i l m h)

pub count_at-le-holders :
    (a : ℕ) (ts : List RuleList) (i : ℕ) (l : RuleList)
    → get_elem? ts i ≡ some l
    → count_at a l.rules ≤ holders a ts
count_at-le-holders a [] i l h = cc
count_at-le-holders a (t ∷ ts) zero l h = ground arith
count_at-le-holders a (t ∷ ts) (suc i) l h = omega (arith, count_at-le-holders a ts i l h)

pub mark_self : (a : ℕ) (b : Bool) (live : Live) → mark a b live a ≡ b
mark_self a b live = ground arith

pub mark_ne : (a x : ℕ) (b : Bool) (live : Live) → x ≢ a → mark a b live x ≡ live x
mark_ne a x b live h = ground arith
