-- ===== src/Sipfw/App/Display.antt =====
-- Listing through both programs: what the user sees of the tables.
use linux_program_practice.Base.{
  ℕ, ◌+◌, ◌%◌, ◌^◌, ◌<◌, ◌≡◌, refl, sym, ap, subst, ◌∙◌, true, false, ◌||◌, some, List, [], ◌∷◌,
  ◌++◌, map, append-nil, arith, ◌==◌, length, All, length-append,
}
use linux_program_practice.Base.Int.{pos, signed32}
use linux_program_practice.Sipfw.Types.{Rule, RuleList, CmdOpts, chain_all, cmd_list}
use linux_program_practice.Sipfw.Netlink.{
  Buffer, roomy, Channel, Message, rule_list, sizeof_count, sizeof_rule, to_u32,
}
use linux_program_practice.Sipfw.Netlink.Listing.{rule_message, count_message, rule_list-all}
use linux_program_practice.Sipfw.Tables.Exact.{Exact, CountExact}
use linux_program_practice.Sipfw.App.Session.{
  Received, got, Line, line_of, recv_rules, after_send, sent, has_name,
}

-- What the program receives of what the kernel sent.
abbrev pub received : List Message → List Received
received ms = map (λ m. got m.body) ms

-- The chain byte of a rule has a name.
abbrev pub Named : Rule → Type 0
Named r = to_u32 r.chain % 256 < 4

-- The lines for rules, each with the chain of the one before it.
abbrev pub lines_of : ℕ → List Rule → List Line
lines_of chain_org [] = []
lines_of chain_org (r ∷ rs) = line_of chain_org r ∷ lines_of (to_u32 r.chain % 256) rs

recv_rules_lem :
    (pid : ℕ) (rs : List Rule) (org : ℕ) (more : List Received)
    → All Named rs
    → recv_rules (length rs) org (received (map (rule_message pid) rs) ++ more)
      ≡ some (record { lines = lines_of org rs; left = more; waits = false })
unfolding recv_rules
recv_rules_lem pid [] org more a = refl
recv_rules_lem pid (r ∷ rs) org more a =
    let named : (to_u32 r.chain % 256 == org || has_name (to_u32 r.chain % 256)) ≡ true =
      ground arith in
    rw (named, recv_rules_lem pid rs (to_u32 r.chain % 256) more a.1) refl

answer_lem :
    (pid k : ℕ) (rs : List Rule) (o : CmdOpts)
    → k ≡ length rs
    → All Named rs
    → signed32 o.command ≡ cmd_list
    → after_send o (received (count_message pid k ∷ map (rule_message pid) rs))
      ≡ some (sent o (record { lines = lines_of 3 rs; left = []; waits = false }))
unfolding after_send
answer_lem pid k rs o e named asked =
    rw (asked, e, sym (append-nil (received (map (rule_message pid) rs))))
      (rw (recv_rules_lem pid rs 3 [] named) refl)

store_counts :
    (c : Channel) (l m n : RuleList)
    → c.store.tables ≡ l ∷ m ∷ n ∷ []
    → Exact c.store
    → length (l.rules ++ m.rules ++ n.rules) < 2 ^ 32
    → (to_u32 l.number + to_u32 m.number + to_u32 n.number) % 2 ^ 32
      ≡ length (l.rules ++ m.rules ++ n.rules)
store_counts c l m n found exact few =
    let (x, (y, (z, _))) : All CountExact (l ∷ m ∷ n ∷ []) = subst (All CountExact) found exact in
    let a = length-append (l.rules ++ m.rules) n.rules in
    let b = length-append l.rules m.rules in rw (x, y, z) (omega (arith, a, b))

-- Where the counts are the lengths of the chains and there are fewer than 2^32 rules, all of chains
-- with a name, the answer to a LIST of all chains makes the program print every rule of the three
-- chains, in order, and leaves nothing unread: it does not wait for a rule that is not sent.
pub list_session :
    (room : ℕ → Buffer) (rule : Rule) (pid : ℕ) (c d : Channel) (l m n : RuleList) (o : CmdOpts)
    → room sizeof_rule ≡ roomy
    → room sizeof_count ≡ roomy
    → rule.chain ≡ pos chain_all
    → c.store.tables ≡ l ∷ m ∷ n ∷ []
    → c.store.live rule.addr ≡ true
    → c.sent ≡ []
    → Exact c.store
    → length (l.rules ++ m.rules ++ n.rules) < 2 ^ 32
    → All Named (l.rules ++ m.rules ++ n.rules)
    → rule_list room rule pid c ≡ some d
    → signed32 o.command ≡ cmd_list
    → after_send o (received d.sent)
      ≡ some (
          sent o (record {
            lines = lines_of 3 (l.rules ++ m.rules ++ n.rules);
            left = [];
            waits = false;
          }))
unfolding after_send
list_session room rule pid c d l m n o fr fc all found live quiet exact few named listed asked =
    let all_sent : d.sent ≡ _ =
      ap (λ (b : Channel). b.sent)
        (some_injective (sym listed ∙ rule_list-all room fr rule pid c l m n fc all found live)) in
    rw (all_sent, quiet) (answer_lem pid _ _ o (store_counts c l m n found exact few) named asked)
  where
    some_injective : {a b : Channel} → some a ≡ some b → a ≡ b
    some_injective e = cc
