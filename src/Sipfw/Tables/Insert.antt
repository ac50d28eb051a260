-- ===== src/Sipfw/Tables/Insert.antt =====
-- SIPFW_NLAction_RuleInsert
use linux_program_practice.Sipfw.Tables.Seek.{seek_lt-append}
use linux_program_practice.Sipfw.Tables.{
  Store, table_at, put_table, rule_insert, insert_at, insert_last,
}
use linux_program_practice.Base.{
  ℕ, zero, suc, ◌<◌, ◌≡◌, refl, ap, ◌≢◌, ◌⊎◌, inl, inr, some, List, [], ◌∷◌, ◌++◌, arith,
  Bool-cases, length,
}
use linux_program_practice.Base.Int.{ℤ, pos, negsuc, ◌<ℤ◌, ◌≤ℤ◌, eqb_ℤ, eqb_ℤ_iff, ltb_ℤ_intro}
use linux_program_practice.Sipfw.Types.{Rule, RuleList}

-- A chain that is longer than `n` has a node behind `n` others.
pub split_at :
    (n : ℕ) (rs : List Rule)
    → n < length rs
    → (xs : List Rule) × (cur : Rule) × (ys : List Rule) × (rs ≡ xs ++ cur ∷ ys) × (length xs ≡ n)
split_at n [] h = elim h [ ]
split_at zero (r ∷ rs) h = ([], r, rs, refl, refl)
split_at (suc n) (r ∷ rs) h =
    let (xs, cur, ys, e, m) = split_at n rs (omega arith) in
    (r ∷ xs, cur, ys, ap (◌∷◌ r) e, ap suc m)

-- The requests at which the handler does not follow a null pointer: the head, a number above the
-- count of a chain that is not empty, no number (-1), or a number from 2 to the count.
abbrev pub Insertable : RuleList → ℤ → Type 0
Insertable l number =
    (number ≡ pos 1)
    ⊎ (((l.number <ℤ number) × (l.rules ≢ []))
        ⊎ (((number ≡ negsuc 0) × (number ≤ℤ l.number))
            ⊎ ((pos 2 ≤ℤ number) × (number ≤ℤ l.number))))

module _ (s : Store) (rule : Rule) (l : RuleList)
    (found : table_at s.tables rule.chain ≡ some l) where
  abbrev pub with_rules : List Rule → Store
  with_rules rs = record s { tables = put_table s.tables rule.chain (record l { rules = rs }) }

  -- Inserting at 1 puts the rule in front of the chain, and does not count it.
  pub rule_insert-head : rule_insert rule (pos 1) s ≡ some (with_rules (rule ∷ l.rules))
  unfolding rule_insert
  rule_insert-head = rw found

  -- Inserting at a number other than 1 above the count puts the rule behind the last one of a chain
  -- that is not empty, and does not count it.
  pub rule_insert-last :
      (number : ℤ)
      → number ≢ pos 1
      → l.number <ℤ number
      → l.rules ≢ []
      → rule_insert rule number s ≡ some (with_rules (l.rules ++ rule ∷ []))
  unfolding rule_insert insert_last
  rule_insert-last number n h k = elim (Bool-cases (eqb_ℤ number (pos 1))) [
    | inl one ↦ absurd (n ((eqb_ℤ_iff number (pos 1)).0 one))
    | inr other ↦ rw (found, other, ltb_ℤ_intro l.number number h) (last l.rules k refl)
  ]
    where
      last :
          (rs : List Rule)
          → rs ≢ []
          → l.rules ≡ rs
          → insert_last rule l s ≡ some (with_rules (l.rules ++ rule ∷ []))
      last [] k e = absurd (k refl)
      last (r ∷ rs) k e = rw (e, insert_last)

  -- Inserting at n, from 2 up to the count, puts the rule in the place of the n-th one, which is in
  -- the chain no longer and is not freed either.
  pub rule_insert-middle :
      (first : Rule) (xs : List Rule) (cur : Rule) (ys : List Rule)
      → l.rules ≡ (first ∷ xs) ++ cur ∷ ys
      → pos (suc (suc (length xs))) ≤ℤ l.number
      → rule_insert rule (pos (suc (suc (length xs)))) s
        ≡ some (with_rules ((first ∷ xs) ++ rule ∷ ys))
  unfolding rule_insert insert_at
  rule_insert-middle first xs cur ys e h =
      ground (arith, seek_lt-append 1 (suc (suc (length xs))) (first ∷ xs) (cur ∷ ys) (omega arith))
