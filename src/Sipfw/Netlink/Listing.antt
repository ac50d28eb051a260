-- ===== src/Sipfw/Netlink/Listing.antt =====
-- The replies to requests.
use linux_program_practice.Sipfw.Memory.{mark}
use linux_program_practice.Sipfw.Netlink.{
  Buffer, Message, msg_rule, sizeof_rule, count, entry, roomy, rule_list, send_rules,
  nl_send_to_user, Channel, send_chains, sizeof_count, to_u32, Body, rule_count,
}
use mathlib.Core.List.{map-append}
use linux_program_practice.Base.{
  ℕ, ◌+◌, ◌%◌, ◌^◌, ◌≡◌, ◌∙◌, ◌≢◌, true, false, some, List, [], ◌∷◌, ◌++◌, map, append-nil,
  append_assoc, arith, if◌then◌else◌,
}
use linux_program_practice.Base.Int.{ℤ, pos, eqb_ℤ}
use linux_program_practice.Sipfw.Types.{Rule, RuleList, chain_all}
use linux_program_practice.Sipfw.Tables.{table_at}

abbrev pub rule_message : ℕ → Rule → Message
rule_message pid r = record { pid = pid; kind = msg_rule; body = entry r }

abbrev pub count_message : ℕ → ℕ → Message
count_message pid n = record { pid = pid; kind = msg_rule; body = count n }

module _ (room : ℕ → Buffer) (fits : room sizeof_rule ≡ roomy) where
  nl_send_fits :
      (pid len kind : ℕ) (body : Body) (c : Channel)
      → room len ≡ roomy
      → nl_send_to_user room pid len kind body c
        ≡ some (record c { sent = c.sent ++ record { pid = pid; kind = kind; body = body } ∷ [] })
  unfolding nl_send_to_user
  nl_send_fits pid len kind body c e = rw (e, nl_send_to_user)

  abbrev with_sent : Channel → List Message → Channel
  with_sent c ms = record c { sent = c.sent ++ ms }

  send_rules_lem :
      (pid : ℕ) (rs : List Rule) (c : Channel)
      → send_rules room pid rs c ≡ some (with_sent c (map (rule_message pid) rs))
  unfolding send_rules
  send_rules_lem pid [] c = simp append-nil
  send_rules_lem pid (r ∷ rs) c =
      rw (nl_send_fits pid sizeof_rule msg_rule (entry r) c fits)
        (send_rules_lem pid rs (with_sent c (rule_message pid r ∷ [])) ∙ simp append_assoc)

  send_chain_lem :
      (pid : ℕ) (i : ℤ) (c : Channel) (l : RuleList)
      → table_at c.store.tables i ≡ some l
      → send_chains room pid 1 i c ≡ some (with_sent c (map (rule_message pid) l.rules))
  unfolding send_chains
  send_chain_lem pid i c l found = rw (found, send_rules_lem pid l.rules c)

  send_all_lem :
      (pid : ℕ) (c : Channel) (l m n : RuleList)
      → c.store.tables ≡ l ∷ m ∷ n ∷ []
      → send_chains room pid 3 (pos 0) c
        ≡ some (with_sent c (map (rule_message pid) (l.rules ++ m.rules ++ n.rules)))
  unfolding send_chains
  send_all_lem pid c l m n found = simp (found, send_rules_lem, map-append, append_assoc)

  -- From what the count and the listing of the rules come to.
  rule_list_by :
      (rule : Rule) (pid : ℕ) (c : Channel) (n : ℕ) (ms : List Message)
      → room sizeof_count ≡ roomy
      → c.store.live rule.addr ≡ true
      → rule_count c.store.tables rule.chain ≡ some n
      → (if eqb_ℤ rule.chain (pos chain_all)
          then send_chains room pid 3 (pos 0) (with_sent c (count_message pid n ∷ []))
          else send_chains room pid 1 rule.chain (with_sent c (count_message pid n ∷ [])))
        ≡ some (with_sent (with_sent c (count_message pid n ∷ [])) ms)
      → rule_list room rule pid c
        ≡ some (record {
          store = record c.store { live = mark rule.addr false c.store.live };
          sent = c.sent ++ (count_message pid n ∷ ms);
        })
  unfolding rule_list
  rule_list_by rule pid c n ms fits_count live counted h =
      rw (counted, nl_send_fits pid sizeof_count msg_rule (count n) c fits_count, h, live)
        (simp append_assoc)

  -- Where messages fit their buffers, listing one chain sends its count and then its rules, in their
  -- order, and frees the node of the request.
  pub rule_list-one :
      (rule : Rule) (pid : ℕ) (c : Channel) (l : RuleList)
      → room sizeof_count ≡ roomy
      → rule.chain ≢ pos chain_all
      → table_at c.store.tables rule.chain ≡ some l
      → c.store.live rule.addr ≡ true
      → rule_list room rule pid c
        ≡ some (record {
          store = record c.store { live = mark rule.addr false c.store.live };
          sent = c.sent ++ (count_message pid (to_u32 l.number) ∷ map (rule_message pid) l.rules);
        })
  unfolding rule_count
  rule_list-one rule pid c l fits_count one found live =
      let other : eqb_ℤ rule.chain (pos chain_all) ≡ false = ground arith in
      rule_list_by rule pid c (to_u32 l.number) (map (rule_message pid) l.rules) fits_count live
        (rw (other, found)) (rw other (send_chain_lem pid rule.chain _ l found))

  -- Where messages fit their buffers, listing all chains sends the sum of the counts in 32 bits and
  -- then the rules of the three chains, in their order, and frees the node of the request.
  pub rule_list-all :
      (rule : Rule) (pid : ℕ) (c : Channel) (l m n : RuleList)
      → room sizeof_count ≡ roomy
      → rule.chain ≡ pos chain_all
      → c.store.tables ≡ l ∷ m ∷ n ∷ []
      → c.store.live rule.addr ≡ true
      → rule_list room rule pid c
        ≡ some (record {
          store = record c.store { live = mark rule.addr false c.store.live };
          sent =
              c.sent
              ++ (count_message pid ((to_u32 l.number + to_u32 m.number + to_u32 n.number) % 2 ^ 32)
                  ∷ map (rule_message pid) (l.rules ++ m.rules ++ n.rules));
        })
  unfolding rule_count
  rule_list-all rule pid c l m n fits_count all found live =
      let every : eqb_ℤ rule.chain (pos chain_all) ≡ true = ground arith in
      rule_list_by rule pid c _ (map (rule_message pid) (l.rules ++ m.rules ++ n.rules)) fits_count
        live (rw (every, found)) (rw every (send_all_lem pid _ l m n found))
