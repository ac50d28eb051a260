-- ===== src/Sipfw/Tables/Exact.antt =====
-- The counts of the chains under the handlers other than insertion.
use linux_program_practice.Sipfw.Tables.Seek.{seek_ne_splits, seek_same_splits}
use linux_program_practice.Sipfw.Tables.Flush.{empty_table}
use linux_program_practice.Sipfw.Memory.{kfree}
use linux_program_practice.Sipfw.Tables.{
  Store, put_table, table_at, free_rule, replace_at, unlink, delete_at, delete_same, flush_chains,
  rule_addpend, rule_delete, rule_flush, rule_replace, free_walk,
}
use linux_program_practice.Base.{
  ℕ, zero, suc, ◌≡◌, refl, ap, subst, inl, inr, Bool, true, false, Option, none, some, List, [],
  ◌∷◌, ◌++◌, arith, if◌then◌else◌, Bool-cases, ◌>>=◌, >>=-eq-some, length, All, length-append,
  All-set, All-get,
}
use linux_program_practice.Base.Int.{ℤ, pos, negsuc, predecessor, eqb_ℤ, ltb_ℤ, succ}
use linux_program_practice.Sipfw.Types.{Rule, RuleList, chain_all}

-- The count of a chain is its length.
abbrev pub CountExact : RuleList → Type 0
CountExact l = l.number ≡ pos (length l.rules)

abbrev pub Exact : Store → Type 0
Exact s = All CountExact s.tables

abbrev ExactIf : Option Store → Type 0
ExactIf none = Unit
ExactIf (some t) = Exact t

pub ExactIf-some : (o : Option Store) (t : Store) → ExactIf o → o ≡ some t → Exact t
ExactIf-some none t x e = cc
ExactIf-some (some s) t x e = let same : s ≡ t = ground arith in subst Exact same x

bind-ExactIf :
    {A : Type 0} (o : Option A) (f : A → Option Store)
    → ((a : A) → ExactIf (f a))
    → ExactIf (o >>= f)
bind-ExactIf none f h = tt
bind-ExactIf (some a) f h = h a

put-Exact :
    (ts : List RuleList) (i : ℤ) (l : RuleList)
    → All CountExact ts
    → CountExact l
    → All CountExact (put_table ts i l)
put-Exact ts (pos i) l h p = All-set CountExact ts i l h p
put-Exact ts (negsuc i) l h p = h

at-Exact :
    (ts : List RuleList) (i : ℤ) (l : RuleList)
    → All CountExact ts
    → table_at ts i ≡ some l
    → CountExact l
at-Exact ts (pos i) l h e = All-get CountExact ts i l h e
at-Exact ts (negsuc i) l h e = cc

module _ (s : Store) (rule : Rule) (x : Exact s) where
  free-Exact : ExactIf (free_rule rule s)
  free-Exact = bind-ExactIf (kfree rule.addr s.live) _ (λ f. x)

  module _ (l : RuleList) (counted : CountExact l) where
    unlink-Exact :
        (xs ys : List Rule)
        → xs ++ ys ≡ l.rules
        → ExactIf (unlink rule l (record { before = xs; rest = ys }) s)
    unfolding unlink
    unlink-Exact xs [] splits = tt
    unlink-Exact xs (cur ∷ ys) splits = bind-ExactIf (kfree cur.addr s.live) _ λ f.
        bind-ExactIf (kfree rule.addr f) _ λ g.
          put-Exact s.tables rule.chain (record { rules = xs ++ ys; number = predecessor l.number })
            x
            (ground
              (arith, counted, ap length splits, length-append xs (cur ∷ ys), length-append xs ys))

    delete_at-Exact :
        (xs ys : List Rule)
        → xs ++ ys ≡ l.rules
        → ExactIf (delete_at rule l (record { before = xs; rest = ys }) s)
    unfolding delete_at
    delete_at-Exact xs [] splits = free-Exact
    delete_at-Exact xs (cur ∷ ys) splits = unlink-Exact xs (cur ∷ ys) splits

    delete_same-Exact :
        (xs ys : List Rule)
        → xs ++ ys ≡ l.rules
        → ExactIf (delete_same rule l (record { before = xs; rest = ys }) s)
    unfolding delete_same
    delete_same-Exact xs [] splits = x
    delete_same-Exact xs (cur ∷ ys) splits = unlink-Exact xs (cur ∷ ys) splits

    replace_at-Exact :
        (xs ys : List Rule)
        → xs ++ ys ≡ l.rules
        → ExactIf (replace_at rule l (record { before = xs; rest = ys }) s)
    unfolding replace_at
    replace_at-Exact xs [] splits = x
    replace_at-Exact xs (cur ∷ ys) splits = bind-ExactIf (kfree cur.addr s.live) _ λ f.
        put-Exact s.tables rule.chain (record l { rules = xs ++ rule ∷ ys }) x
          (ground (
            arith,
            counted,
            ap length splits,
            length-append xs (cur ∷ ys),
            length-append xs (rule ∷ ys),
          ))

  if-ExactIf :
      (b : Bool) (o p : Option Store) → ExactIf o → ExactIf p → ExactIf (if b then o else p)
  if-ExactIf true o p h k = h
  if-ExactIf false o p h k = k

  pub rule_delete-Exact : (number : ℤ) (t : Store) → rule_delete rule number s ≡ some t → Exact t
  unfolding rule_delete
  rule_delete-Exact number t e =
      let (l, found, e1) = >>=-eq-some (table_at s.tables rule.chain) _ e in
      let c = at-Exact s.tables rule.chain l x found in
      ExactIf-some _ t
        (if-ExactIf (ltb_ℤ l.number number) _ _ free-Exact (
          if-ExactIf (eqb_ℤ number (negsuc 0)) _ _
            (delete_same-Exact l c _ _ (seek_same_splits rule l.rules))
            (delete_at-Exact l c _ _ (seek_ne_splits 1 number l.rules))))
        e1

  pub rule_replace-Exact : (number : ℤ) (t : Store) → rule_replace rule number s ≡ some t → Exact t
  unfolding rule_replace
  rule_replace-Exact number t e =
      let (l, found, e1) = >>=-eq-some (table_at s.tables rule.chain) _ e in
      let c = at-Exact s.tables rule.chain l x found in
      ExactIf-some _ t
        (if-ExactIf (eqb_ℤ number (negsuc 0)) _ _
          (if-ExactIf (ltb_ℤ l.number number) _ _ free-Exact x)
          (replace_at-Exact l c _ _ (seek_ne_splits 1 number l.rules)))
        e1

  pub rule_addpend-Exact : (t : Store) → rule_addpend rule s ≡ some t → Exact t
  unfolding rule_addpend
  rule_addpend-Exact t e =
      let (l, found, e1) = >>=-eq-some (table_at s.tables rule.chain) _ e in
      let c = at-Exact s.tables rule.chain l x found in
      ExactIf-some _ t
        (put-Exact s.tables rule.chain
          (record { rules = l.rules ++ rule ∷ []; number = succ l.number }) x
          (ground (arith, c, length-append l.rules (rule ∷ []))))
        e1

  pub free_rule-Exact : (t : Store) → free_rule rule s ≡ some t → Exact t
  free_rule-Exact t e = ExactIf-some _ t free-Exact e

flush_chains-Exact :
    (n : ℕ) (i : ℤ) (prev : Option Rule) (s t : Store)
    → Exact s
    → flush_chains n i prev s ≡ some t
    → Exact t
unfolding flush_chains
flush_chains-Exact zero i prev s t x e = ExactIf-some (some s) t x e
flush_chains-Exact (suc n) i prev s t x e =
    let (l, found, e1) = >>=-eq-some (table_at s.tables i) _ e in
    let (w, walked, e2) = >>=-eq-some (free_walk prev l.rules s.live) _ e1 in
    flush_chains-Exact n (succ i) w.0 _ t (put-Exact s.tables i empty_table x refl) e2

pub rule_flush-Exact : (s t : Store) (rule : Rule) → Exact s → rule_flush rule s ≡ some t → Exact t
unfolding rule_flush
rule_flush-Exact s t rule x e =
    let (u, flushed, freed) = >>=-eq-some _ (free_rule rule) e in
    free_rule-Exact u rule (emptied u flushed) t freed
  where
    emptied :
        (u : Store)
        → (if eqb_ℤ rule.chain (pos chain_all)
            then flush_chains 3 (pos 0) none s
            else flush_chains 1 rule.chain none s)
          ≡ some u
        → Exact u
    emptied u q = elim (Bool-cases (eqb_ℤ rule.chain (pos chain_all))) [
      | inl all ↦ flush_chains-Exact 3 (pos 0) none s u x (rw all at q)
      | inr one ↦ flush_chains-Exact 1 rule.chain none s u x (rw one at q)
    ]
