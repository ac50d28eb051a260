-- ===== src/Sipfw/Tables/Good.antt =====
-- The invariant of the rule tables (sipfw_tables in sipfw_k_nl.c).
use linux_program_practice.Sipfw.Tables.Seek.{put_table-Owned}
use linux_program_practice.Sipfw.Tables.{Store, table_at, put_table}
use linux_program_practice.Base.{
  ℕ, List, Option, All, length, ◌≡◌, All-set, some, All-get, ◌+◌, ◌≤◌, none, if◌then◌else◌,
}
use linux_program_practice.Base.Int.{ℤ, pos, negsuc, ◌≤ℤ◌}
use linux_program_practice.Sipfw.Types.{Rule, RuleList}
use linux_program_practice.Sipfw.Memory.{Live, Owned, count_at, holders}

-- The count of a chain is at most the length of the chain. It is not always equal: insertion does
-- not count.
abbrev pub CountBounded : RuleList → Type 0
CountBounded l = l.number ≤ℤ pos (length l.rules)

pub record Good (s : Store) : Type 0 where
  pub owned : Owned s.tables s.live
  pub bounded : All CountBounded s.tables

-- The handler returns, with the invariant.
abbrev pub Keeps : Option Store → Type 0
Keeps none = ⊥
Keeps (some t) = Good t

pub All-put_table :
    (ts : List RuleList) (i : ℤ) (l : RuleList)
    → All CountBounded ts
    → CountBounded l
    → All CountBounded (put_table ts i l)
All-put_table ts (pos i) l h p = All-set CountBounded ts i l h p
All-put_table ts (negsuc i) l h p = h

pub CountBounded-table_at :
    (ts : List RuleList) (i : ℤ) (l : RuleList)
    → All CountBounded ts
    → table_at ts i ≡ some l
    → CountBounded l
CountBounded-table_at ts (pos i) l h e = All-get CountBounded ts i l h e
CountBounded-table_at ts (negsuc i) l h e = cc

-- Writing a table `m` whose nodes are among those of `l` and those newly allocated, less the freed.
module _ (s : Store) (rule : Rule) (l m : RuleList) (good : Good s)
    (found : table_at s.tables rule.chain ≡ some l) (counted : CountBounded m) where
  pub put-Good :
      (later : Live)
      → ((a : ℕ)
          → holders a s.tables + count_at a m.rules
            ≤ count_at a l.rules + (if later a then 1 else 0))
      → Good (record { tables = put_table s.tables rule.chain m; live = later })
  put-Good later k = record {
    owned = put_table-Owned s.tables s.live later rule.chain l m found k;
    bounded = All-put_table s.tables rule.chain m good.bounded counted;
  }
