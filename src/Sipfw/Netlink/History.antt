-- ===== src/Sipfw/Netlink/History.antt =====
-- What holds after any history of requests.
use linux_program_practice.Sipfw.Tables.Exact.{
  Exact, rule_delete-Exact, rule_replace-Exact, rule_addpend-Exact, free_rule-Exact,
  rule_flush-Exact,
}
use linux_program_practice.Sipfw.Netlink.Dispatch.{
  Handled, inserted, deleted, replaced, appended, listed, flushed, ignored, dispatch-Handled,
}
use linux_program_practice.Sipfw.Tables.FlushSafety.{free_rule-Good, rule_flush-Good}
use linux_program_practice.Sipfw.Netlink.{
  Buffer, Channel, Request, allocated, new_rule, nl_do_action,
}
use linux_program_practice.Sipfw.Tables.InsertSafety.{
  rule_insert-Keeps, rule_insert_null, nil_or, low_or,
}
use linux_program_practice.Sipfw.Tables.Safety.{
  rule_addpend-Keeps, rule_delete-Keeps, rule_replace-Keeps,
}
use linux_program_practice.Sipfw.Tables.Insert.{Insertable}
use linux_program_practice.Sipfw.Tables.Seek.{Fresh}
use linux_program_practice.Base.{
  ℕ, ◌≡◌, subst, ◌≢◌, ◌⊎◌, inl, inr, false, Option, none, some, arith, Bool-cases, >>=-eq-some,
}
use linux_program_practice.Base.Int.{ℤ, pos, negsuc, eqb_ℤ, eqb_ℤ_iff, ltb_ℤ, signed32}
use linux_program_practice.Sipfw.Types.{Rule, RuleList, cmd_insert}
use linux_program_practice.Sipfw.Tables.{
  Store, rule_addpend, rule_delete, rule_insert, rule_replace, table_at,
}
use linux_program_practice.Sipfw.Tables.Good.{Good, Keeps}

-- A handler that keeps the state good where its chain exists keeps it good where it returns.
Keeps→Good : (o : Option Store) (t : Store) → Keeps o → o ≡ some t → Good t
Keeps→Good none t k e = absurd k
Keeps→Good (some s) t k e = subst Good (some-inj e) k
  where
    some-inj : some s ≡ some t → s ≡ t
    some-inj q = cc

decide : (l : RuleList) (number : ℤ) → Insertable l number ⊎ (¬ Insertable l number)
decide l number = elim (Bool-cases (eqb_ℤ number (pos 1))) [
  | inl one ↦ inl (inl ((eqb_ℤ_iff number (pos 1)).0 one))
  | inr other ↦ elim (Bool-cases (ltb_ℤ l.number number)) [
    | inl above ↦ elim (nil_or l.rules) [
      | inl nil ↦ inr λ h. ground arith
      | inr cons ↦ inl (inr (inl (ground arith, cons)))
    ]
    | inr within ↦ elim (Bool-cases (eqb_ℤ number (negsuc 0))) [
      | inl none_given ↦
          inl (inr (inr (inl ((eqb_ℤ_iff number (negsuc 0)).0 none_given, ground arith))))
      | inr given ↦ elim (low_or number) [
        | inl low ↦ inr λ h. ground arith
        | inr high ↦ inl (inr (inr (inr (high, ground arith))))
      ]
    ]
  ]
]

none≢some : {o : Option Store} {t : Store} → o ≡ none → o ≡ some t → ⊥
none≢some e f = cc

module _ (s t : Store) (rule : Rule) (good : Good s) (fresh : Fresh rule s) where
  rule_insert-Good : (number : ℤ) → rule_insert rule number s ≡ some t → Good t
  unfolding rule_insert
  rule_insert-Good number e =
      let (l, found, _) = >>=-eq-some (table_at s.tables rule.chain) _ e in
      elim (decide l number) [
        | inl can ↦ Keeps→Good _ t (rule_insert-Keeps s rule l found number good fresh can) e
        | inr not_can ↦ absurd (none≢some (rule_insert_null s rule l found number not_can) e)
      ]

  rule_delete-Good : (number : ℤ) → rule_delete rule number s ≡ some t → Good t
  unfolding rule_delete
  rule_delete-Good number e =
      let (l, found, _) = >>=-eq-some (table_at s.tables rule.chain) _ e in
      Keeps→Good _ t (rule_delete-Keeps s rule l good found fresh number) e

  rule_replace-Good : (number : ℤ) → rule_replace rule number s ≡ some t → Good t
  unfolding rule_replace
  rule_replace-Good number e =
      let (l, found, _) = >>=-eq-some (table_at s.tables rule.chain) _ e in
      Keeps→Good _ t (rule_replace-Keeps s rule l good found fresh number) e

  rule_addpend-Good : rule_addpend rule s ≡ some t → Good t
  unfolding rule_addpend
  rule_addpend-Good e =
      let (l, found, _) = >>=-eq-some (table_at s.tables rule.chain) _ e in
      Keeps→Good _ t (rule_addpend-Keeps s rule l good found fresh) e

-- Every step of the relation keeps a good state good, if the node of the request is its own.
Handled-Good :
    (cmd number : ℤ) (rule : Rule) (s t : Store)
    → Good s
    → Fresh rule s
    → Handled cmd number rule s t
    → Good t
Handled-Good cmd number rule s t good fresh (inserted k e) =
    rule_insert-Good s t rule good fresh number e
Handled-Good cmd number rule s t good fresh (deleted k e) =
    rule_delete-Good s t rule good fresh number e
Handled-Good cmd number rule s t good fresh (replaced k e) =
    rule_replace-Good s t rule good fresh number e
Handled-Good cmd number rule s t good fresh (appended k e) = rule_addpend-Good s t rule good fresh e
Handled-Good cmd number rule s t good fresh (listed k e) =
    free_rule-Good s t rule good fresh.unlinked e
Handled-Good cmd number rule s t good fresh (flushed k e) = rule_flush-Good s t rule good fresh e
Handled-Good cmd number rule s t good fresh (ignored k e) = subst Good e good

-- The states that requests whose commands satisfy `P` lead to, where each of them gets an address
-- that was not allocated and its handling returns.
pub data History (room : ℕ → Buffer) (P : ℤ → Type 0) (c : Channel) : Channel → Type 0 where
  start : History room P c c
  serve :
      {d e : Channel} (q : Request) (addr : ℕ)
      → History room P c d
      → P (signed32 q.opts.command)
      → q.kmalloc ≡ some addr
      → d.store.live addr ≡ false
      → nl_do_action room q d ≡ some e
      → History room P c e

-- A new address gives a node of its own, and a good state.
allocated-Good :
    (c : Channel) (addr : ℕ)
    → Good c.store
    → c.store.live addr ≡ false
    → Good (allocated addr c).store
allocated-Good c addr good new = record {
  owned = λ a. ground (arith, good.owned a);
  bounded = good.bounded;
}

allocated-Fresh :
    (c : Channel) (addr : ℕ) (q : Request)
    → Good c.store
    → c.store.live addr ≡ false
    → Fresh (new_rule addr q) (allocated addr c).store
unfolding new_rule
allocated-Fresh c addr q good new = record {
  allocated = ground arith;
  unlinked = ground (arith, good.owned addr);
}

-- Where kmalloc gives an address and the handling of a request returns, what it does to the tables
-- is one step of the relation, from the tables with the new node allocated: that of the command in
-- the request.
pub nl_do_action-Handled :
    (room : ℕ → Buffer) (q : Request) (addr : ℕ) (c d : Channel)
    → q.kmalloc ≡ some addr
    → nl_do_action room q c ≡ some d
    → Handled
        (signed32 q.opts.command)
        (signed32 q.opts.number)
        (new_rule addr q)
        (allocated addr c).store
        d.store
unfolding nl_do_action
nl_do_action-Handled room q addr c d k e =
    dispatch-Handled room (signed32 q.opts.command) (signed32 q.opts.number) (new_rule addr q) q.pid
      (allocated addr c) d (rw (k, nl_do_action) at e)

-- Where the nodes of the tables are allocated and in one place each, and the counts are at most the
-- lengths of the chains, that is so after any history of requests that get new addresses and are
-- handled without a fault: no node that is in a chain is free, and none is in two places.
pub History-Good :
    (room : ℕ → Buffer) (P : ℤ → Type 0) (c d : Channel)
    → Good c.store
    → History room P c d
    → Good d.store
History-Good room P c d good start = good
History-Good room P c d good (serve {d = b} q addr h p k new e) =
    let before = History-Good room P c b good h in
    Handled-Good _ _ _ _ _ (allocated-Good b addr before new) (allocated-Fresh b addr q before new)
      (nl_do_action-Handled room q addr b d k e)

Handled-Exact :
    (cmd number : ℤ) (rule : Rule) (s t : Store)
    → cmd ≢ cmd_insert
    → Exact s
    → Handled cmd number rule s t
    → Exact t
Handled-Exact cmd number rule s t n x (inserted k e) = absurd (n k)
Handled-Exact cmd number rule s t n x (deleted k e) = rule_delete-Exact s rule x number t e
Handled-Exact cmd number rule s t n x (replaced k e) = rule_replace-Exact s rule x number t e
Handled-Exact cmd number rule s t n x (appended k e) = rule_addpend-Exact s rule x t e
Handled-Exact cmd number rule s t n x (listed k e) = free_rule-Exact s rule x t e
Handled-Exact cmd number rule s t n x (flushed k e) = rule_flush-Exact s t rule x e
Handled-Exact cmd number rule s t n x (ignored k e) = subst Exact e x

-- After any history of requests without an INSERT that get new addresses and are handled without a
-- fault, every count is the length of its chain, if it was so before.
pub History-Exact :
    (room : ℕ → Buffer) (c d : Channel)
    → Exact c.store
    → History room (λ cmd. cmd ≢ cmd_insert) c d
    → Exact d.store
History-Exact room c d x start = x
History-Exact room c d x (serve {d = b} q addr h p k new e) =
    Handled-Exact _ _ _ _ _ p (History-Exact room c b x h)
      (nl_do_action-Handled room q addr b d k e)
