-- ===== src/Sipfw/Netlink/Dispatch.antt =====
-- What the dispatch of a request does to the tables: the handler that it calls, as a relation.
use linux_program_practice.Sipfw.Netlink.{
  Buffer, Channel, dispatch, nl_send_to_user, on_store, reply, rule_list, send_chains, send_rules,
  Body, msg_success, sizeof_rule, msg_rule, text, entry, rule_count, sizeof_count, count,
}
use linux_program_practice.Base.{
  ℕ, zero, suc, ◌≡◌, sym, ap, subst, ◌∙◌, inl, inr, Option, none, some, List, [], ◌∷◌, arith,
  if◌then◌else◌, Bool-cases, >>=-eq-some, ◌≢◌, Bool, true, false,
}
use linux_program_practice.Base.Int.{ℤ, pos, eqb_ℤ, eqb_ℤ_iff, succ}
use linux_program_practice.Sipfw.Types.{
  Rule, cmd_insert, cmd_delete, chain_all, cmd_replace, cmd_append, cmd_list, cmd_flush,
}
use linux_program_practice.Sipfw.Tables.{
  Store, rule_insert, free_rule, table_at, rule_delete, rule_replace, rule_addpend, rule_flush,
}

-- None of the six commands.
pub record Unknown (cmd : ℤ) : Type 0 where
  pub no_insert : cmd ≢ cmd_insert
  pub no_delete : cmd ≢ cmd_delete
  pub no_replace : cmd ≢ cmd_replace
  pub no_append : cmd ≢ cmd_append
  pub no_list : cmd ≢ cmd_list
  pub no_flush : cmd ≢ cmd_flush

-- From the tables `s`, the command `cmd` leads to the tables `t`.
pub data Handled (cmd number : ℤ) (rule : Rule) (s t : Store) : Type 0 where
  inserted : cmd ≡ cmd_insert → rule_insert rule number s ≡ some t → Handled cmd number rule s t
  deleted : cmd ≡ cmd_delete → rule_delete rule number s ≡ some t → Handled cmd number rule s t
  replaced : cmd ≡ cmd_replace → rule_replace rule number s ≡ some t → Handled cmd number rule s t
  appended : cmd ≡ cmd_append → rule_addpend rule s ≡ some t → Handled cmd number rule s t
  listed : cmd ≡ cmd_list → free_rule rule s ≡ some t → Handled cmd number rule s t
  flushed : cmd ≡ cmd_flush → rule_flush rule s ≡ some t → Handled cmd number rule s t
  ignored : Unknown cmd → s ≡ t → Handled cmd number rule s t

differ : {b : Bool} → b ≡ false → b ≢ true
differ e f = cc

some_injective {ℓ} : {A : Type ℓ} {a b : A} → some a ≡ some b → a ≡ b
some_injective e = cc

on_store_inversion : (c d : Channel) (o : Option Store) → on_store c o ≡ some d → o ≡ some d.store
on_store_inversion c d none e = cc
on_store_inversion c d (some s) e = ap some (ap (λ (b : Channel). b.store) (some_injective e))

module _ (room : ℕ → Buffer) where
  -- A message leaves the tables alone.
  nl_send_store :
      (pid len kind : ℕ) (body : Body) (c d : Channel)
      → nl_send_to_user room pid len kind body c ≡ some d
      → d.store ≡ c.store
  unfolding nl_send_to_user
  nl_send_store pid len kind body c d e = ground arith

  send_rules_store :
      (pid : ℕ) (rs : List Rule) (c d : Channel)
      → send_rules room pid rs c ≡ some d
      → d.store ≡ c.store
  unfolding send_rules
  send_rules_store pid [] c d e = ap (λ (b : Channel). b.store) (some_injective (sym e))
  send_rules_store pid (r ∷ rs) c d e =
      let (c', sent, e') =
        >>=-eq-some (nl_send_to_user room pid sizeof_rule msg_rule (entry r) c) _ e in
      send_rules_store pid rs c' d e' ∙ nl_send_store _ _ _ _ c c' sent

  send_chains_store :
      (pid n : ℕ) (i : ℤ) (c d : Channel) → send_chains room pid n i c ≡ some d → d.store ≡ c.store
  unfolding send_chains
  send_chains_store pid zero i c d e = ap (λ (b : Channel). b.store) (some_injective (sym e))
  send_chains_store pid (suc n) i c d e =
      let (l, found, e1) = >>=-eq-some (table_at c.store.tables i) _ e in
      let (c', sent, e2) = >>=-eq-some (send_rules room pid l.rules c) _ e1 in
      send_chains_store pid n (succ i) c' d e2 ∙ send_rules_store pid l.rules c c' sent

  -- Where a reply is sent, the handler returned, and its state is the state after.
  reply_inversion :
      (pid : ℕ) (c d : Channel) (o : Option Store) → reply room pid c o ≡ some d → o ≡ some d.store
  reply_inversion pid c d o e =
      let (b, kept, e1) = >>=-eq-some (on_store c o) _ e in
      on_store_inversion c b o kept
      ∙ ap some (sym (nl_send_store pid 8 msg_success (text "SUCCESS") b d e1))

  -- Listing only frees the node of the request.
  rule_list_store :
      (rule : Rule) (pid : ℕ) (c d : Channel)
      → rule_list room rule pid c ≡ some d
      → free_rule rule c.store ≡ some d.store
  unfolding rule_list
  rule_list_store rule pid c d e =
      let (n, _, e1) = >>=-eq-some (rule_count c.store.tables rule.chain) _ e in
      let (c1, s1, e2) =
        >>=-eq-some (nl_send_to_user room pid sizeof_count msg_rule (count n) c) _ e1 in
      let (c2, s2, e3) = >>=-eq-some _ (λ b. on_store b (free_rule rule b.store)) e2 in
      let same : c2.store ≡ c.store =
        listed_store c1 c2 s2 ∙ nl_send_store pid sizeof_count msg_rule (count n) c c1 s1 in
      subst (λ (s : Store). free_rule rule s ≡ some d.store) same
        (on_store_inversion c2 d (free_rule rule c2.store) e3)
    where
      listed_store :
          (c1 c2 : Channel)
          → (if eqb_ℤ rule.chain (pos chain_all)
              then send_chains room pid 3 (pos 0) c1
              else send_chains room pid 1 rule.chain c1)
            ≡ some c2
          → c2.store ≡ c1.store
      listed_store c1 c2 q = elim (Bool-cases (eqb_ℤ rule.chain (pos chain_all))) [
        | inl all ↦ send_chains_store pid 3 (pos 0) c1 c2 (rw all at q)
        | inr one ↦ send_chains_store pid 1 rule.chain c1 c2 (rw one at q)
      ]

  module _ (cmd number : ℤ) (rule : Rule) (pid : ℕ) (c d : Channel) where
    abbrev Outcome : Option Channel → Type 0
    Outcome o = o ≡ some d → Handled cmd number rule c.store d.store

    -- One rung of the ladder of tests.
    rung :
        (k : ℤ) (x y : Option Channel)
        → (cmd ≡ k → Outcome x)
        → (cmd ≢ k → Outcome y)
        → Outcome (if eqb_ℤ cmd k then x else y)
    rung k x y yes_case no_case e = elim (Bool-cases (eqb_ℤ cmd k)) [
      | inl is ↦ yes_case ((eqb_ℤ_iff cmd k).0 is) (rw is at e)
      | inr isnt ↦ no_case (λ is. differ isnt ((eqb_ℤ_iff cmd k).1 is)) (rw isnt at e)
    ]

    pub dispatch-Handled : Outcome (dispatch room cmd number rule pid c)
    unfolding dispatch
    dispatch-Handled =
        rung cmd_insert _ _ (λ k e. inserted k (reply_inversion pid c d _ e))
          λ i.
            rung cmd_delete _ _ (λ k e. deleted k (reply_inversion pid c d _ e))
              λ x.
                rung cmd_replace _ _ (λ k e. replaced k (reply_inversion pid c d _ e))
                  λ r.
                    rung cmd_append _ _ (λ k e. appended k (reply_inversion pid c d _ e))
                      λ a.
                        rung cmd_list _ _ (λ k e. listed k (rule_list_store rule pid c d e))
                          λ l.
                            rung cmd_flush _ _ (λ k e. flushed k (reply_inversion pid c d _ e))
                              λ f. λ e.
                                let unknown : Unknown cmd = record {
                                  no_insert = i;
                                  no_delete = x;
                                  no_replace = r;
                                  no_append = a;
                                  no_list = l;
                                  no_flush = f;
                                } in
                                ignored unknown (ap (λ (b : Channel). b.store) (some_injective e))
