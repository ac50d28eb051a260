-- ===== src/Sipfw/Tables/InsertSafety.antt =====
-- When SIPFW_NLAction_RuleInsert returns, and when it follows a null pointer.
use linux_program_practice.Sipfw.Memory.{count_at, count_at-append}
use linux_program_practice.Sipfw.Tables.Insert.{
  Insertable, rule_insert-head, rule_insert-middle, with_rules, rule_insert-last, split_at,
}
use linux_program_practice.Sipfw.Tables.Seek.{Fresh}
use linux_program_practice.Sipfw.Tables.{
  Store, seek_lt, table_at, rule_insert, insert_at, insert_last,
}
use linux_program_practice.Base.{
  ℕ, zero, suc, ◌+◌, ◌≤◌, ◌≡◌, refl, ap, ◌≢◌, ◌⊎◌, inl, inr, true, false, none, some, List, [], ◌∷◌,
  ◌++◌, arith, Bool-cases, length, length-append,
}
use linux_program_practice.Base.Int.{
  ℤ, pos, negsuc, ◌≤ℤ◌, ◌<ℤ◌, eqb_ℤ, ltb_ℤ, ltb_ℤ-false, eqb_ℤ_iff,
}
use linux_program_practice.Sipfw.Types.{Rule, RuleList}
use linux_program_practice.Sipfw.Tables.Good.{
  Good, Keeps, CountBounded, CountBounded-table_at, put-Good,
}

pub low_or : (number : ℤ) → (number ≤ℤ pos 1) ⊎ (pos 2 ≤ℤ number)
low_or number = omega arith

pub nil_or : (rs : List Rule) → (rs ≡ []) ⊎ (rs ≢ [])
nil_or [] = inl refl
nil_or (r ∷ rs) = inr (λ e. cc)

seek_lt_below : (number : ℤ) (rs : List Rule) → number ≤ℤ pos 1 → (seek_lt 1 number rs).before ≡ []
unfolding seek_lt
seek_lt_below number [] h = refl
seek_lt_below number (r ∷ rs) h = ground arith

module _ (s : Store) (rule : Rule) (l : RuleList)
    (found : table_at s.tables rule.chain ≡ some l) where
  -- The written chain holds the fresh node and nodes of the old chain, and is no shorter.
  with_rules-Good :
      (rs : List Rule)
      → Good s
      → Fresh rule s
      → length l.rules ≤ length rs
      → ((a : ℕ) → count_at a rs ≤ count_at a l.rules + count_at a (rule ∷ []))
      → Good (with_rules s rule l found rs)
  with_rules-Good rs good fresh longer k =
      put-Good s rule l (record l { rules = rs }) good found
        (ground (arith, CountBounded-table_at s.tables rule.chain l good.bounded found)) s.live
        λ b. ground (arith, k b, good.owned b, fresh.unlinked, fresh.allocated)

  middle-Keeps :
      (n : ℕ) (xs : List Rule) (cur : Rule) (ys : List Rule)
      → Good s
      → Fresh rule s
      → pos (suc (suc n)) ≤ℤ l.number
      → l.rules ≡ xs ++ cur ∷ ys
      → length xs ≡ suc n
      → Keeps (rule_insert rule (pos (suc (suc n))) s)
  middle-Keeps n [] cur ys good fresh h e m = absurd (omega arith)
  middle-Keeps n (first ∷ xs) cur ys good fresh h e m =
      let same : length xs ≡ n = omega arith in
      rw (← same) (
        rw (rule_insert-middle s rule l found first xs cur ys e (omega arith)) (
          with_rules-Good ((first ∷ xs) ++ rule ∷ ys) good fresh
            (ground (arith, ap length e, length-append xs (cur ∷ ys), length-append xs (rule ∷ ys)))
            λ b. ground (
              arith,
              ap (count_at b) e,
              count_at-append b xs (cur ∷ ys),
              count_at-append b xs (rule ∷ ys),
            )))

  insert_at-Keeps :
      (number : ℤ)
      → Good s
      → Fresh rule s
      → pos 2 ≤ℤ number
      → number ≤ℤ l.number
      → Keeps (rule_insert rule number s)
  insert_at-Keeps (negsuc n) good fresh low h = absurd (omega arith)
  insert_at-Keeps (pos zero) good fresh low h = absurd (omega arith)
  insert_at-Keeps (pos (suc zero)) good fresh low h = absurd (omega arith)
  insert_at-Keeps (pos (suc (suc n))) good fresh low h =
      let bound : CountBounded l = CountBounded-table_at s.tables rule.chain l good.bounded found in
      let (xs, cur, ys, e, m) = split_at (suc n) l.rules (omega arith) in
      middle-Keeps n xs cur ys good fresh h e m

  insert_head-Keeps :
      (number : ℤ) → Good s → Fresh rule s → number ≡ pos 1 → Keeps (rule_insert rule number s)
  insert_head-Keeps number good fresh e = rw e (
      rw (rule_insert-head s rule l found)
        (with_rules-Good (rule ∷ l.rules) good fresh (omega arith) λ b. omega arith))

  insert_last-Keeps :
      (number : ℤ)
      → Good s
      → Fresh rule s
      → l.number <ℤ number
      → l.rules ≢ []
      → Keeps (rule_insert rule number s)
  insert_last-Keeps number good fresh h k = elim (Bool-cases (eqb_ℤ number (pos 1))) [
    | inl one ↦ insert_head-Keeps number good fresh ((eqb_ℤ_iff number (pos 1)).0 one)
    | inr other ↦
        let ne : number ≢ pos 1 = ground arith in
        rw (rule_insert-last s rule l found number ne h k) (
          with_rules-Good (l.rules ++ rule ∷ []) good fresh
            (omega (arith, length-append l.rules (rule ∷ [])))
            λ b. omega (arith, count_at-append b l.rules (rule ∷ [])))
  ]

  insert_none-Keeps :
      (number : ℤ)
      → Good s
      → number ≡ negsuc 0
      → number ≤ℤ l.number
      → Keeps (rule_insert rule number s)
  unfolding rule_insert
  insert_none-Keeps number good e h =
      rw e (rw (found, ltb_ℤ-false l.number (negsuc 0) (rw e at h)) good)

  -- Every number below 2 but 1 and -1 that is not above the count finds no node before its place.
  insert_null :
      (number : ℤ)
      → number ≢ pos 1
      → number ≢ negsuc 0
      → number ≤ℤ l.number
      → number ≤ℤ pos 1
      → rule_insert rule number s ≡ none
  unfolding rule_insert insert_at
  insert_null number n1 n2 h low = ground (arith, seek_lt_below number l.rules low)

  insert_empty :
      (number : ℤ)
      → number ≢ pos 1
      → l.number <ℤ number
      → l.rules ≡ []
      → rule_insert rule number s ≡ none
  unfolding rule_insert insert_last
  insert_empty number n1 h e = ground arith

  -- In a state whose nodes are allocated and in one place each, and whose counts are at most the
  -- lengths of their chains, inserting a node of its own into a chain that exists, at a request of
  -- `Insertable`, returns, and leaves such a state.
  pub rule_insert-Keeps :
      (number : ℤ) → Good s → Fresh rule s → Insertable l number → Keeps (rule_insert rule number s)
  rule_insert-Keeps number good fresh (inl e) = insert_head-Keeps number good fresh e
  rule_insert-Keeps number good fresh (inr (inl (h, k))) = insert_last-Keeps number good fresh h k
  rule_insert-Keeps number good fresh (inr (inr (inl (e, h)))) = insert_none-Keeps number good e h
  rule_insert-Keeps number good fresh (inr (inr (inr (low, h)))) =
      insert_at-Keeps number good fresh low h

  -- At every request but those of `Insertable`, inserting into a chain that exists follows a null
  -- pointer.
  pub rule_insert_null : (number : ℤ) → ¬ Insertable l number → rule_insert rule number s ≡ none
  rule_insert_null number n = below (Bool-cases (ltb_ℤ l.number number)) (nil_or l.rules)
    where
      below :
          (ltb_ℤ l.number number ≡ true) ⊎ (ltb_ℤ l.number number ≡ false)
          → (l.rules ≡ []) ⊎ (l.rules ≢ [])
          → rule_insert rule number s ≡ none
      below (inl above) (inl e) = insert_empty number (λ o. n (inl o)) (ground arith) e
      below (inl above) (inr k) = absurd (n (inr (inl (ground arith, k))))
      below (inr within) c =
          insert_null number (λ o. n (inl o)) (λ o. n (inr (inr (inl (o, ground arith)))))
            (ground arith)
            (elim (low_or number) [
              | inl low ↦ low
              | inr high ↦ absurd (n (inr (inr (inr (high, ground arith)))))
            ])
