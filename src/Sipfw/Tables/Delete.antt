-- ===== src/Sipfw/Tables/Delete.antt =====
-- SIPFW_NLAction_RuleDelete
use linux_program_practice.Base.Int.{negsuc, pos, predecessor, ◌≤ℤ◌, ℤ, ◌<ℤ◌}
use linux_program_practice.Base.{
  ◌≤◌, ◌≡◌, ◌≢◌, true, some, List, ◌∷◌, ◌++◌, arith, suc, refl, ap, false, [], length, All,
}
use linux_program_practice.Sipfw.Types.{Rule, RuleList}
use linux_program_practice.Sipfw.Memory.{count_at, holders, Owned, count_at-append, mark}
use linux_program_practice.Sipfw.Tables.{
  Store, table_at, put_table, rule_delete, same_rule, delete_same, seek_same, unlink,
}
use linux_program_practice.Sipfw.Tables.Seek.{
  count_at-table_at, Fresh, holders-put_table, seek_ne-append,
}

-- A node of the chain is allocated, and is not the fresh one.
pub node_live :
    (s : Store) (rule : Rule) (l : RuleList) (xs ys : List Rule) (cur : Rule)
    → Owned s.tables s.live
    → table_at s.tables rule.chain ≡ some l
    → Fresh rule s
    → l.rules ≡ xs ++ cur ∷ ys
    → (s.live cur.addr ≡ true) × (cur.addr ≢ rule.addr)
node_live s rule l xs ys cur o h f e =
    let at : 1 ≤ count_at cur.addr l.rules =
      rw e (ground (arith, count_at-append cur.addr xs (cur ∷ ys))) in
    let held : 1 ≤ holders cur.addr s.tables =
      omega (arith, count_at-table_at cur.addr s.tables rule.chain l h) in
    (
      ground (arith, o cur.addr),
      λ q. let z : holders cur.addr s.tables ≡ 0 = rw q f.unlinked in omega arith,
    )

seek_same-append :
    (rule : Rule) (xs : List Rule) (cur : Rule) (ys : List Rule)
    → All (λ r. same_rule r rule ≡ false) xs
    → same_rule cur rule ≡ true
    → seek_same rule (xs ++ cur ∷ ys) ≡ record { before = xs; rest = cur ∷ ys }
unfolding seek_same
seek_same-append rule [] cur ys a h = ground arith
seek_same-append rule (x ∷ xs) cur ys a h =
    ground (arith, a.0, seek_same-append rule xs cur ys a.1 h)

seek_same-none :
    (rule : Rule) (rs : List Rule)
    → All (λ r. same_rule r rule ≡ false) rs
    → (seek_same rule rs).rest ≡ []
unfolding seek_same
seek_same-none rule [] a = refl
seek_same-none rule (r ∷ rs) a = ground (arith, a.0, seek_same-none rule rs a.1)

abbrev pub unlinked_from : Store → Rule → RuleList → List Rule → Rule → List Rule → Store
unlinked_from s rule l xs cur ys = record {
  tables =
      put_table s.tables rule.chain (record { rules = xs ++ ys; number = predecessor l.number });
  live = mark rule.addr false (mark cur.addr false s.live);
}

unlink_lem :
    (s : Store) (rule : Rule) (l : RuleList) (xs : List Rule) (cur : Rule) (ys : List Rule)
    → s.live cur.addr ≡ true
    → cur.addr ≢ rule.addr
    → s.live rule.addr ≡ true
    → unlink rule l (record { before = xs; rest = cur ∷ ys }) s
      ≡ some (unlinked_from s rule l xs cur ys)
unfolding unlink
unlink_lem s rule l xs cur ys a n b = ground arith

module _ (s : Store) (rule : Rule) (l : RuleList) (xs : List Rule) (cur : Rule) (ys : List Rule)
    (owned : Owned s.tables s.live) (found : table_at s.tables rule.chain ≡ some l)
    (fresh : Fresh rule s) (splits : l.rules ≡ xs ++ cur ∷ ys) where
  pub unlink_here :
      unlink rule l (record { before = xs; rest = cur ∷ ys }) s
      ≡ some (unlinked_from s rule l xs cur ys)
  unlink_here =
      let (a, n) = node_live s rule l xs ys cur owned found fresh splits in
      unlink_lem s rule l xs cur ys a n fresh.allocated

  pub unlinked-Owned :
      Owned (unlinked_from s rule l xs cur ys).tables (unlinked_from s rule l xs cur ys).live
  unlinked-Owned a = ground (
    arith,
    owned a,
    fresh.unlinked,
    holders-put_table a s.tables rule.chain l
        (record { rules = xs ++ ys; number = predecessor l.number }) found,
    ap (count_at a) splits,
    count_at-append a xs (cur ∷ ys),
    count_at-append a xs ys,
  )

  -- Deleting number n of a chain that has an n-th rule and a count of at least n, where the tables
  -- own their nodes and the node of the request is its own: the n-th rule leaves the chain and is
  -- freed with the node of the request, the count falls by one, and nothing else changes.
  pub rule_delete-number :
      pos (suc (length xs)) ≤ℤ l.number
      → rule_delete rule (pos (suc (length xs))) s ≡ some (unlinked_from s rule l xs cur ys)
  unfolding rule_delete
  rule_delete-number h =
      ground (arith, unlink_here, seek_ne-append 1 (suc (length xs)) xs (cur ∷ ys) (omega arith))

  -- Deleting without a number from a chain whose count is not below -1, where the tables own their
  -- nodes and the node of the request is its own: the first rule of the chain that equals the request
  -- in all but its interface leaves the chain and is freed with the node of the request.
  pub rule_delete-same :
      negsuc 0 ≤ℤ l.number
      → All (λ r. same_rule r rule ≡ false) xs
      → same_rule cur rule ≡ true
      → rule_delete rule (negsuc 0) s ≡ some (unlinked_from s rule l xs cur ys)
  unfolding rule_delete
  rule_delete-same h others this =
      ground (arith, unlink_here, seek_same-append rule xs cur ys others this)

-- Deleting without a number from a chain whose count is not below -1, where no rule of it equals the
-- request: nothing changes, so the node of the request is not freed.
pub rule_delete-missing :
    (s : Store) (rule : Rule) (l : RuleList)
    → table_at s.tables rule.chain ≡ some l
    → negsuc 0 ≤ℤ l.number
    → All (λ r. same_rule r rule ≡ false) l.rules
    → rule_delete rule (negsuc 0) s ≡ some s
unfolding rule_delete delete_same
rule_delete-missing s rule l found h others = ground (arith, seek_same-none rule l.rules others)

-- Deleting a number above the count: only the node of the request is freed.
pub rule_delete_above :
    (s : Store) (rule : Rule) (number : ℤ) (l : RuleList)
    → table_at s.tables rule.chain ≡ some l
    → s.live rule.addr ≡ true
    → l.number <ℤ number
    → rule_delete rule number s ≡ some (record s { live = mark rule.addr false s.live })
unfolding rule_delete
rule_delete_above s rule number l found a h = ground arith
