-- ===== src/Sipfw/App/Effect.antt =====
-- What a command line comes to in the kernel.
use linux_program_practice.Sipfw.ConfFile.{starts_with}
use linux_program_practice.Sipfw.App.Judge.{judge_command_iff, Asks}
use linux_program_practice.Base.{
  ℕ, ◌*◌, ◌<◌, ◌≡◌, refl, ap, ◌∙◌, ◌≢◌, ◌⊎◌, true, false, none, some, List, [], ◌∷◌, ◌++◌, arith,
  All,
}
use linux_program_practice.Base.Int.{pos, signed32, ◌<ℤ◌}
use linux_program_practice.Sipfw.Types.{Rule, RuleList, CmdOpts, SkBuff, cmd_append, cmd_delete}
use linux_program_practice.Sipfw.Memory.{mark}
use linux_program_practice.Sipfw.Match.First.{Applies}
use linux_program_practice.Sipfw.Netlink.{
  Buffer, Channel, Request, new_rule, nl_do_action, dispatch,
}
use linux_program_practice.Sipfw.Tables.{rule_addpend, table_at, Store, rule_delete}
use linux_program_practice.Sipfw.Tables.Delete.{rule_delete_above}
use linux_program_practice.Sipfw.App.{
  Conversions, Given, minus_one, htons, initial_opts, parse_command, judge_command, find_word,
  chain_words, parse_all, parse_given, parse_arg, parse_opt,
}
use linux_program_practice.Sipfw.App.Options.{
  parse_command-no_protocol, parse_command-number, action_le,
}

-- SIPFW_JudgeCommand never touches the protocol.
judge-protocol : (o : CmdOpts) → (judge_command o).1.protocol ≡ o.protocol
judge-protocol o = rw (judge_command_iff o).1 refl

-- A rule that was made from a command line without an option -p applies to no packet: its protocol
-- is 255, and no packet of the protocols that the filter knows has that.
pub no_protocol-NeverApplies :
    (c : Conversions) (gs : List Given) (addr : ℕ) (q : Request) (skb : SkBuff)
    → All (λ g. g.letter ≢ b'p') gs
    → q.opts ≡ (judge_command (parse_command c gs initial_opts)).1
    → ¬ Applies skb (new_rule addr q)
unfolding new_rule
no_protocol-NeverApplies c gs addr q skb a e (_, _, p, t) =
    let sent : q.opts.protocol ≡ minus_one =
      ap (λ (o : CmdOpts). o.protocol) e
      ∙ judge-protocol (parse_command c gs initial_opts)
      ∙ parse_command-no_protocol c gs initial_opts a in
    ground arith

-- A chain name that begins with none of the three names.
abbrev pub Nameless : List ℕ → Type 0
Nameless str = All (λ w. starts_with w.0 str ≡ false) chain_words

unknown_lem : (str : List ℕ) → Nameless str → find_word chain_words 3 str ≡ 3
unfolding find_word
unknown_lem str (a, (b, (d, _))) = rw (a, b, d) refl

-- In the kernel, no table has the number 3.
append_or_delete_faults :
    (room : ℕ → Buffer) (q : Request) (k : Channel) (l m n : RuleList)
    → k.store.tables ≡ l ∷ m ∷ n ∷ []
    → (Asks cmd_append q.opts) ⊎ (Asks cmd_delete q.opts)
    → q.opts.chain ≡ 3
    → nl_do_action room q k ≡ none
unfolding nl_do_action new_rule dispatch rule_addpend rule_delete
append_or_delete_faults room q k l m n found asks chain = ground (arith, found, asks, chain)

judge_all_chains :
    (o : CmdOpts)
    → o.chain ≡ 3
    → o.action ≢ minus_one
    → (Asks cmd_append o) ⊎ (Asks cmd_delete o)
    → judge_command o ≡ (pos 0, o)
unfolding judge_command
judge_all_chains o chain action asks = ground (arith, chain, action, asks)

module _ (c : Conversions) (cmd : ℕ) (b : ℕ) (str : List ℕ) (name : ℕ) (action : List ℕ) where
  -- The command line `-A chain -j action` or `-D chain -j action`.
  abbrev pub chain_line : List Given
  chain_line =
      record { letter = cmd; arg = some (b ∷ str) }
      ∷ record { letter = b'j'; arg = some (name ∷ action) }
      ∷ []

  record Everywhere : Type 0 where
    all_chains : (parse_command c chain_line initial_opts).chain ≡ 3
    has_action : (parse_command c chain_line initial_opts).action ≢ minus_one
    asks :
        (Asks cmd_append (parse_command c chain_line initial_opts))
        ⊎ (Asks cmd_delete (parse_command c chain_line initial_opts))

  line_lem : (cmd ≡ b'A') ⊎ (cmd ≡ b'D') → b ≢ b':' → name ≢ b':' → Nameless (b ∷ str) → Everywhere
  unfolding parse_command parse_all parse_given parse_arg parse_opt
  line_lem which colon other_colon unknown =
      let u = unknown_lem (b ∷ str) unknown in
      record {
        all_chains = ground (arith, u);
        has_action = ground (arith, action_le c (name ∷ action));
        asks = ground arith;
      }

  -- Appending to or deleting from a chain of an unknown name: SIPFW_JudgeCommand lets it through as
  -- chain 3, and the handling of the request in the kernel reads outside of sipfw_tables.
  pub unknown_chain_faults :
      (room : ℕ → Buffer) (q : Request) (k : Channel) (l m n : RuleList)
      → (cmd ≡ b'A') ⊎ (cmd ≡ b'D')
      → b ≢ b':'
      → name ≢ b':'
      → Nameless (b ∷ str)
      → k.store.tables ≡ l ∷ m ∷ n ∷ []
      → q.opts ≡ (judge_command (parse_command c chain_line initial_opts)).1
      → ((judge_command (parse_command c chain_line initial_opts)).0 ≡ pos 0)
        × (nl_do_action room q k ≡ none)
  unknown_chain_faults room q k l m n which colon colon' unknown found e =
      let w = line_lem which colon colon' unknown in
      let judged =
        judge_all_chains (parse_command c chain_line initial_opts) w.all_chains w.has_action
          w.asks in
      let same : q.opts ≡ parse_command c chain_line initial_opts = e ∙ rw judged refl in
      (
        rw judged refl,
        append_or_delete_faults room q k _ _ _ found (rw same w.asks) (rw same w.all_chains),
      )

-- Deleting by number: where the last option is -u with a number n below 256, and not 0, what is
-- asked for is rule 256 * n. In a chain of fewer than 256 * n rules the kernel deletes none, and
-- frees the node of the request.
pub delete_numbered :
    (c : Conversions) (gs : List Given) (b : ℕ) (str : List ℕ) (s : Store) (rule : Rule)
    (l : RuleList)
    → b ≢ b':'
    → c.strtoul (b ∷ str) < 256
    → l.number <ℤ pos (256 * c.strtoul (b ∷ str))
    → table_at s.tables rule.chain ≡ some l
    → s.live rule.addr ≡ true
    → rule_delete rule
        (signed32
          (parse_command c
            (gs ++ record { letter = b'u'; arg = some (b ∷ str) } ∷ [])
            initial_opts).number)
        s
      ≡ some (record s { live = mark rule.addr false s.live })
delete_numbered c gs b str s rule l colon small few found live =
    let n = c.strtoul (b ∷ str) in
    let asked : signed32 (htons n) ≡ pos (256 * n) = ground arith in
    rw (parse_command-number c gs initial_opts b str colon, asked)
      (rule_delete_above s rule _ l found live few)
