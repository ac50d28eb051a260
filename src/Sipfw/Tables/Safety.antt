-- ===== src/Sipfw/Tables/Safety.antt =====
-- SIPFW_NLAction_RuleDelete, SIPFW_NLAction_RuleReplace and SIPFW_NLAction_RuleAddpend: whether they
-- return, and the invariant of the tables.
use linux_program_practice.Sipfw.Memory.{kfree, mark, count_at, count_at-append}
use linux_program_practice.Sipfw.Tables.Delete.{unlink_here, unlinked-Owned, node_live}
use linux_program_practice.Sipfw.Tables.Seek.{Fresh, seek_ne_splits, seek_same_splits}
use linux_program_practice.Sipfw.Tables.{
  Store, table_at, delete_at, delete_same, replace_at, rule_addpend, rule_delete, rule_replace,
  free_rule, unlink,
}
use linux_program_practice.Base.{
  ◌≡◌, sym, ap, inl, inr, false, some, List, [], ◌∷◌, ◌++◌, arith, Bool-cases, length,
  length-append,
}
use linux_program_practice.Base.Int.{ℤ, negsuc, predecessor, eqb_ℤ, ltb_ℤ, succ}
use linux_program_practice.Sipfw.Types.{Rule, RuleList}
use linux_program_practice.Sipfw.Tables.Good.{
  Good, CountBounded, Keeps, CountBounded-table_at, All-put_table, put-Good,
}

free_rule-Keeps : (s : Store) (rule : Rule) → Good s → Fresh rule s → Keeps (free_rule rule s)
free_rule-Keeps s rule good fresh =
    rw fresh.allocated
      (record { owned = λ a. ground (arith, good.owned a, fresh.unlinked); bounded = good.bounded })

-- What the handlers share: the request's node, and the chain that it names.
module _ (s : Store) (rule : Rule) (l : RuleList) (good : Good s)
    (found : table_at s.tables rule.chain ≡ some l) (fresh : Fresh rule s) where
  counted : CountBounded l
  counted = CountBounded-table_at s.tables rule.chain l good.bounded found

  unlink-Keeps :
      (xs : List Rule) (cur : Rule) (ys : List Rule)
      → xs ++ cur ∷ ys ≡ l.rules
      → Keeps (unlink rule l (record { before = xs; rest = cur ∷ ys }) s)
  unlink-Keeps xs cur ys e =
      rw (unlink_here s rule l xs cur ys good.owned found fresh (sym e)) (record {
        owned = unlinked-Owned s rule l xs cur ys good.owned found fresh (sym e);
        bounded =
            All-put_table s.tables rule.chain
              (record { rules = xs ++ ys; number = predecessor l.number }) good.bounded
              (ground
                (arith, counted, ap length e, length-append xs (cur ∷ ys), length-append xs ys));
      })

  delete_at-Keeps :
      (xs ys : List Rule)
      → xs ++ ys ≡ l.rules
      → Keeps (delete_at rule l (record { before = xs; rest = ys }) s)
  unfolding delete_at
  delete_at-Keeps xs [] e = free_rule-Keeps s rule good fresh
  delete_at-Keeps xs (cur ∷ ys) e = unlink-Keeps xs cur ys e

  delete_same-Keeps :
      (xs ys : List Rule)
      → xs ++ ys ≡ l.rules
      → Keeps (delete_same rule l (record { before = xs; rest = ys }) s)
  unfolding delete_same
  delete_same-Keeps xs [] e = good
  delete_same-Keeps xs (cur ∷ ys) e = unlink-Keeps xs cur ys e

  replace_at-Keeps :
      (xs ys : List Rule)
      → xs ++ ys ≡ l.rules
      → Keeps (replace_at rule l (record { before = xs; rest = ys }) s)
  unfolding replace_at
  replace_at-Keeps xs [] e = good
  replace_at-Keeps xs (cur ∷ ys) e =
      let (a, n) = node_live s rule l xs ys cur good.owned found fresh (sym e) in
      rw (a, kfree)
        (put-Good s rule l (record l { rules = xs ++ rule ∷ ys }) good found
          (ground (
            arith,
            counted,
            ap length e,
            length-append xs (cur ∷ ys),
            length-append xs (rule ∷ ys),
          ))
          (mark cur.addr false s.live)
          λ b. ground (
            arith,
            n,
            good.owned b,
            fresh.unlinked,
            fresh.allocated,
            ap (count_at b) e,
            count_at-append b xs (cur ∷ ys),
            count_at-append b xs (rule ∷ ys),
          ))

  -- In a state whose nodes are allocated and in one place each, and whose counts are at most the
  -- lengths of their chains, deleting from a chain that exists returns for every number, if the node
  -- of the request is its own, and leaves such a state.
  pub rule_delete-Keeps : (number : ℤ) → Keeps (rule_delete rule number s)
  unfolding rule_delete
  rule_delete-Keeps number = elim (Bool-cases (ltb_ℤ l.number number)) [
    | inl above ↦ rw (found, above) (free_rule-Keeps s rule good fresh)
    | inr within ↦ elim (Bool-cases (eqb_ℤ number (negsuc 0))) [
      | inl none_given ↦
          rw (found, within, none_given) (delete_same-Keeps _ _ (seek_same_splits rule l.rules))
      | inr given ↦
          rw (found, within, given) (delete_at-Keeps _ _ (seek_ne_splits 1 number l.rules))
    ]
  ]

  -- In a state whose nodes are allocated and in one place each, and whose counts are at most the
  -- lengths of their chains, replacing in a chain that exists returns for every number, if the node
  -- of the request is its own, and leaves such a state.
  pub rule_replace-Keeps : (number : ℤ) → Keeps (rule_replace rule number s)
  unfolding rule_replace
  rule_replace-Keeps number = elim (Bool-cases (eqb_ℤ number (negsuc 0))) [
    | inl none_given ↦ elim (Bool-cases (ltb_ℤ l.number number)) [
      | inl above ↦ rw (found, none_given, above) (free_rule-Keeps s rule good fresh)
      | inr within ↦ rw (found, none_given, within) good
    ]
    | inr given ↦ rw (found, given) (replace_at-Keeps _ _ (seek_ne_splits 1 number l.rules))
  ]

  -- Appending to a chain that exists does so too.
  pub rule_addpend-Keeps : Keeps (rule_addpend rule s)
  unfolding rule_addpend
  rule_addpend-Keeps = rw found (
      put-Good s rule l (record { rules = l.rules ++ rule ∷ []; number = succ l.number }) good found
        (ground (arith, counted, length-append l.rules (rule ∷ []))) s.live
        λ b. ground (
          arith,
          good.owned b,
          fresh.unlinked,
          fresh.allocated,
          count_at-append b l.rules (rule ∷ []),
        ))
