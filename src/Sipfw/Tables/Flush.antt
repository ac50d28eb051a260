-- ===== src/Sipfw/Tables/Flush.antt =====
-- SIPFW_NLAction_RuleFlush and SIPFW_ListDestroy: the loop that frees one node behind.
use linux_program_practice.Sipfw.Tables.Seek.{Fresh, count_at-table_at}
use linux_program_practice.Sipfw.Tables.{
  free_walk, kfree_if, Store, flush_chains, list_destroy, rule_flush, table_at, put_table,
}
use linux_program_practice.Sipfw.Memory.{Live, count_at, mark, count_at-append, holders, Owned}
use linux_program_practice.Base.{
  ℕ, ◌+◌, ◌≤◌, ◌≡◌, refl, ◌≢◌, Bool, true, false, Option, none, some, List, [], ◌∷◌, ◌++◌, arith,
  if◌then◌else◌,
}
use linux_program_practice.Base.Int.{ℤ, pos}
use linux_program_practice.Sipfw.Types.{Rule, RuleList, chain_all}

abbrev pub bit : Bool → ℕ
bit b = if b then 1 else 0

abbrev pub opt_list : Option Rule → List Rule
opt_list none = []
opt_list (some r) = r ∷ []

-- `prev` behind the last node of a list.
abbrev pub last_of : Option Rule → List Rule → Option Rule
last_of prev [] = prev
last_of prev (r ∷ rs) = last_of (some r) rs

pub last_of-append :
    (prev : Option Rule) (xs ys : List Rule)
    → last_of prev (xs ++ ys) ≡ last_of (last_of prev xs) ys
last_of-append prev [] ys = refl
last_of-append prev (x ∷ xs) ys = last_of-append (some x) xs ys

-- What a walk does: it returns, and has freed all that it was given but the last node.
pub record Walked (prev : Option Rule) (rest : List Rule) (live : Live) : Type 0 where
  pub later : Live
  pub returns : free_walk prev rest live ≡ some (last_of prev rest, later)
  pub accounts :
      (a : ℕ)
      → bit (later a) + count_at a (opt_list prev ++ rest)
        ≡ bit (live a) + count_at a (opt_list (last_of prev rest))

Walked-cons :
    (prev : Option Rule) (r : Rule) (rest : List Rule) (live freed : Live)
    → kfree_if prev live ≡ some freed
    → ((a : ℕ) → bit (freed a) + count_at a (opt_list prev) ≡ bit (live a))
    → Walked (some r) rest freed
    → Walked prev (r ∷ rest) live
unfolding free_walk
Walked-cons prev r rest live freed k e w = record {
  later = w.later;
  returns = rw k w.returns;
  accounts = λ a. omega (arith, w.accounts a, e a, count_at-append a (opt_list prev) (r ∷ rest));
}

-- The walk never frees an address twice, if the nodes that it is given are allocated and distinct.
pub walk :
    (prev : Option Rule) (rest : List Rule) (live : Live)
    → ((a : ℕ) → count_at a (opt_list prev ++ rest) ≤ bit (live a))
    → Walked prev rest live
unfolding free_walk
walk prev [] live h = record {
  later = live;
  returns = refl;
  accounts = λ a. omega (arith, count_at-append a (opt_list prev) []);
}
walk none (r ∷ rest) live h =
    Walked-cons none r rest live live refl (λ a. omega arith) (walk (some r) rest live h)
walk (some p) (r ∷ rest) live h =
    Walked-cons (some p) r rest live (mark p.addr false live) (ground (arith, h p.addr))
      (λ a. ground (arith, h p.addr))
      (walk (some r) rest (mark p.addr false live) (λ a. ground (arith, h a, h p.addr)))

abbrev pub empty_table : RuleList
empty_table = record { rules = []; number = pos 0 }

-- The whole array of tables with every chain emptied.
abbrev pub empty_tables : List RuleList
empty_tables = empty_table ∷ empty_table ∷ empty_table ∷ []

-- What emptying the tables leaves allocated: of the nodes that they held, the last one alone.
abbrev pub LeaksLast : List RuleList → Live → Live → Option Rule → Type 0
LeaksLast tables live later last =
    (a : ℕ) → bit (later a) + holders a tables ≡ bit (live a) + count_at a (opt_list last)

record Flushed (s : Store) (l m n : RuleList) : Type 0 where
  later : Live
  returns : flush_chains 3 (pos 0) none s ≡ some (record { tables = empty_tables; live = later })
  leaks : LeaksLast s.tables s.live later (last_of none (l.rules ++ m.rules ++ n.rules))

-- Three walks in turn, each with the `prev` of the one before.
flush_by_walks :
    (s : Store) (l m n : RuleList)
    → s.tables ≡ l ∷ m ∷ n ∷ []
    → (first : Walked none l.rules s.live)
    → (second : Walked (last_of none l.rules) m.rules first.later)
    → Walked (last_of (last_of none l.rules) m.rules) n.rules second.later
    → Flushed s l m n
unfolding flush_chains
flush_by_walks s l m n e first second third = record {
  later = third.later;
  returns = rw (e, first.returns, second.returns, third.returns);
  leaks = λ a.
      rw (e, last_of-append none (l.rules ++ m.rules) n.rules, last_of-append none l.rules m.rules)
        (omega (
          arith,
          first.accounts a,
          second.accounts a,
          third.accounts a,
          count_at-append a (opt_list (last_of none l.rules)) m.rules,
          count_at-append a (opt_list (last_of (last_of none l.rules) m.rules)) n.rules,
        ));
}

flush_all :
    (s : Store) (l m n : RuleList)
    → s.tables ≡ l ∷ m ∷ n ∷ []
    → Owned s.tables s.live
    → Flushed s l m n
flush_all s l m n e o = second (walk none l.rules s.live λ a. omega (arith, o a, held a))
  where
    held :
        (a : ℕ)
        → holders a s.tables ≡ count_at a l.rules + (count_at a m.rules + count_at a n.rules)
    held a = rw e (omega arith)

    third :
        (first : Walked none l.rules s.live)
        → Walked (last_of none l.rules) m.rules first.later
        → Flushed s l m n
    third f g = flush_by_walks s l m n e f g (
        walk (last_of (last_of none l.rules) m.rules) n.rules g.later λ a. omega (
          arith,
          o a,
          held a,
          f.accounts a,
          g.accounts a,
          count_at-append a (opt_list (last_of none l.rules)) m.rules,
          count_at-append a (opt_list (last_of (last_of none l.rules) m.rules)) n.rules,
        ))

    second : Walked none l.rules s.live → Flushed s l m n
    second f = third f (
        walk (last_of none l.rules) m.rules f.later λ a. omega (
          arith,
          o a,
          held a,
          f.accounts a,
          count_at-append a (opt_list (last_of none l.rules)) m.rules,
        ))

one_chain :
    (s : Store) (i : ℤ) (l : RuleList) (later : Live) (last : Option Rule)
    → table_at s.tables i ≡ some l
    → free_walk none l.rules s.live ≡ some (last, later)
    → flush_chains 1 i none s
      ≡ some (record { tables = put_table s.tables i empty_table; live = later })
unfolding flush_chains
one_chain s i l later last found w = rw (found, w)

-- When the module is unloaded, destroying the tables returns from every state in which the three
-- chains own their nodes, empties every chain, frees no node twice, and leaves exactly the last
-- node of the three chains allocated.
pub list_destroy-leaks :
    (s : Store) (l m n : RuleList)
    → s.tables ≡ l ∷ m ∷ n ∷ []
    → Owned s.tables s.live
    → (later : Live) × (list_destroy s ≡ some (record { tables = empty_tables; live = later }))
      × LeaksLast s.tables s.live later (last_of none (l.rules ++ m.rules ++ n.rules))
unfolding list_destroy
list_destroy-leaks s l m n e o = let f = flush_all s l m n e o in (f.later, f.returns, f.leaks)

-- Flushing all chains, where the three chains own their nodes and the node of the request is its
-- own, returns, empties every chain, and frees the node of the request and all nodes of the chains
-- but the last one of the three, which stays allocated.
pub rule_flush-all :
    (s : Store) (rule : Rule) (l m n : RuleList)
    → rule.chain ≡ pos chain_all
    → s.tables ≡ l ∷ m ∷ n ∷ []
    → Owned s.tables s.live
    → Fresh rule s
    → (later : Live) × (rule_flush rule s
        ≡ some (record { tables = empty_tables; live = mark rule.addr false later }))
      × LeaksLast s.tables s.live later (last_of none (l.rules ++ m.rules ++ n.rules))
unfolding rule_flush
rule_flush-all s rule l m n c e o fresh =
    let f = flush_all s l m n e o in
    let alive : f.later rule.addr ≡ true =
      ground (arith, f.leaks rule.addr, fresh.allocated, fresh.unlinked) in
    (f.later, ground (arith, f.returns, alive), f.leaks)

-- Flushing one chain that exists, where the tables own their nodes and the node of the request is
-- its own, returns, empties the chain, and frees the node of the request and all nodes of the chain
-- but the last, which stays allocated.
pub rule_flush-one :
    (s : Store) (rule : Rule) (l : RuleList)
    → rule.chain ≢ pos chain_all
    → table_at s.tables rule.chain ≡ some l
    → Owned s.tables s.live
    → Fresh rule s
    → (later : Live) × (rule_flush rule s
        ≡ some (record {
          tables = put_table s.tables rule.chain empty_table;
          live = mark rule.addr false later;
        }))
      × ((a : ℕ)
          → bit (later a) + count_at a l.rules
            ≡ bit (s.live a) + count_at a (opt_list (last_of none l.rules)))
unfolding rule_flush
rule_flush-one s rule l c found o fresh =
    let w =
      walk none l.rules s.live
        (λ a. omega (arith, o a, count_at-table_at a s.tables rule.chain l found)) in
    let alive : w.later rule.addr ≡ true = ground (
      arith,
      w.accounts rule.addr,
      fresh.allocated,
      fresh.unlinked,
      count_at-table_at rule.addr s.tables rule.chain l found,
    ) in
    (w.later, ground (arith, one_chain s rule.chain l w.later _ found w.returns, alive), w.accounts)
