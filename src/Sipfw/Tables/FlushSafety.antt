-- ===== src/Sipfw/Tables/FlushSafety.antt =====
-- SIPFW_NLAction_RuleFlush and the invariant of the tables.
use linux_program_practice.Sipfw.Tables.Flush.{opt_list, walk, empty_table, last_of}
use linux_program_practice.Sipfw.Tables.Seek.{count_at-table_at, Fresh, holders-put_table}
use linux_program_practice.Sipfw.Memory.{count_at, holders, count_at-append, mark}
use linux_program_practice.Sipfw.Tables.Good.{CountBounded, Good, All-put_table}
use linux_program_practice.Sipfw.Tables.{
  Store, flush_chains, table_at, rule_flush, free_rule, put_table,
}
use linux_program_practice.Base.{
  ℕ, zero, suc, ◌+◌, ◌≤◌, ◌≡◌, subst, inl, inr, false, Option, none, some, arith, if◌then◌else◌,
  Bool-cases, >>=-eq-some, All,
}
use linux_program_practice.Base.Int.{ℤ, pos, eqb_ℤ, succ}
use linux_program_practice.Sipfw.Types.{Rule, chain_all}

-- The tables and the node behind which the walk is hold each allocated node at most once.
abbrev Held : Option Rule → Store → Type 0
Held prev s =
    (a : ℕ) → count_at a (opt_list prev) + holders a s.tables ≤ (if s.live a then 1 else 0)

abbrev Emptied : Store → Store → Type 0
Emptied s t = Good t × ((a : ℕ) → holders a t.tables ≤ holders a s.tables)

flush_chains-Emptied :
    (n : ℕ) (i : ℤ) (prev : Option Rule) (s t : Store)
    → Held prev s
    → All CountBounded s.tables
    → flush_chains n i prev s ≡ some t
    → Emptied s t
unfolding flush_chains
flush_chains-Emptied zero i prev s t h b e =
    let same : s ≡ t = cc in
    subst (Emptied s) same
      (record { owned = λ a. omega (arith, h a); bounded = b }, λ a. omega arith)
flush_chains-Emptied (suc n) i prev s t h b e =
    let (l, found, e1) = >>=-eq-some (table_at s.tables i) _ e in
    let inside = λ (a : ℕ). count_at-table_at a s.tables i l found in
    let w =
      walk prev l.rules s.live
        λ a. omega (arith, h a, inside a, count_at-append a (opt_list prev) l.rules) in
    let shrunk = λ (a : ℕ). holders-put_table a s.tables i l empty_table found in
    let (good, fewer) =
      flush_chains-Emptied n (succ i) (last_of prev l.rules)
        (record { tables = put_table s.tables i empty_table; live = w.later }) t
        (λ a.
          omega (
            arith,
            h a,
            inside a,
            w.accounts a,
            shrunk a,
            count_at-append a (opt_list prev) l.rules,
          ))
        (All-put_table s.tables i empty_table b (omega arith)) (rw w.returns at e1) in
    (good, λ a. omega (arith, fewer a, shrunk a))

-- The node of the request is in no chain, before and after the chains are emptied.
pub free_rule-Good :
    (s t : Store) (rule : Rule)
    → Good s
    → holders rule.addr s.tables ≡ 0
    → free_rule rule s ≡ some t
    → Good t
free_rule-Good s t rule good out e =
    let same : t ≡ record s { live = mark rule.addr false s.live } = ground arith in
    rw same (record { owned = λ a. ground (arith, good.owned a, out); bounded = good.bounded })

-- Where flushing, of one chain or of all, returns from a state whose nodes are allocated and in one
-- place each and whose counts are at most the lengths of their chains, with the node of the request
-- its own, it leaves such a state.
pub rule_flush-Good :
    (s t : Store) (rule : Rule) → Good s → Fresh rule s → rule_flush rule s ≡ some t → Good t
unfolding rule_flush
rule_flush-Good s t rule good fresh e =
    let (u, flushed, freed) = >>=-eq-some _ (free_rule rule) e in
    let (g, fewer) = emptied u flushed in
    free_rule-Good u t rule g (omega (arith, fewer rule.addr, fresh.unlinked)) freed
  where
    emptied :
        (u : Store)
        → (if eqb_ℤ rule.chain (pos chain_all)
            then flush_chains 3 (pos 0) none s
            else flush_chains 1 rule.chain none s)
          ≡ some u
        → Emptied s u
    emptied u q = elim (Bool-cases (eqb_ℤ rule.chain (pos chain_all))) [
      | inl all ↦
          flush_chains-Emptied 3 (pos 0) none s u (λ a. omega (arith, good.owned a)) good.bounded
            (rw all at q)
      | inr one ↦
          flush_chains-Emptied 1 rule.chain none s u (λ a. omega (arith, good.owned a)) good.bounded
            (rw one at q)
    ]
