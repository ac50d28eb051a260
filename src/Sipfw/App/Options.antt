-- ===== src/Sipfw/App/Options.antt =====
-- What SIPFW_ParseCommand may leave in the options.
use linux_program_practice.Base.{
  ℕ, ◌^◌, ◌≤◌, ◌<◌, ◌≡◌, refl, ◌⊎◌, inl, inr, Option, none, some, List, [], ◌∷◌, arith, ◌==◌,
  Bool-cases, All, ◌∙◌, ◌≢◌, false, ◌++◌,
}
use linux_program_practice.Sipfw.Types.{CmdOpts, chain_all}
use linux_program_practice.Sipfw.ConfFile.{starts_with}
use linux_program_practice.Sipfw.App.{
  Conversions, Given, minus_one, find_word, chain_words, action_words, OptKind, opt_chain,
  opt_action, opt_port, parse_opt, parse_arg, parse_given, parse_all, parse_command, htons,
}

-- What each word stands for, as long as no option has set it: -1, or a chain, an action or a
-- protocol; ports and the number have 16 bits.
pub record Parsed (n : ℕ) (o : CmdOpts) : Type 0 where
  pub chain : (o.chain ≡ minus_one) ⊎ (o.chain ≤ 3)
  pub action : (o.action ≡ minus_one) ⊎ (o.action ≤ 1)
  pub sport : o.sport < 2 ^ 16
  pub dport : o.dport < 2 ^ 16
  pub number : (o.number ≡ n) ⊎ (o.number < 2 ^ 16)

find_word_le :
    (words : List (List ℕ × ℕ)) (other : ℕ) (str : List ℕ) (k : ℕ)
    → other ≤ k
    → All (λ w. w.1 ≤ k) words
    → find_word words other str ≤ k
unfolding find_word
find_word_le [] other str k h a = h
find_word_le ((w, v) ∷ ws) other str k h a =
    let rest = find_word_le ws other str k h a.1 in
    elim (Bool-cases (starts_with w str)) [ inl is ↦ rw is a.0 | inr isnt ↦ rw isnt rest ]

module _ (c : Conversions) where
  -- The word of an option with an argument is either kept or the parsed one.
  parse_arg-cases :
      (k : OptKind) (arg : Option (List ℕ)) (old : ℕ)
      → (parse_arg c k arg old ≡ old)
        ⊎ ((str : List ℕ) × (parse_arg c k arg old ≡ parse_opt c k (some str)))
  unfolding parse_arg
  parse_arg-cases k none old = inl refl
  parse_arg-cases k (some []) old = inr ([], refl)
  parse_arg-cases k (some (b ∷ bs)) old = elim (Bool-cases (b == b':')) [
    | inl colon ↦ inl (rw colon refl)
    | inr other ↦ inr (b ∷ bs, rw other refl)
  ]

  arg_in :
      (P : ℕ → Type 0) (k : OptKind) (arg : Option (List ℕ)) (old : ℕ)
      → P old
      → ((str : List ℕ) → P (parse_opt c k (some str)))
      → P (parse_arg c k arg old)
  arg_in P k arg old p q = elim (parse_arg-cases k arg old) [
    | inl kept ↦ rw kept p
    | inr (str, is) ↦ rw is (q str)
  ]

  chain_le : (str : List ℕ) → parse_opt c opt_chain (some str) ≤ 3
  unfolding parse_opt
  chain_le str =
      find_word_le chain_words chain_all str 3 (omega arith)
        (omega arith, (omega arith, (omega arith, tt)))

  pub action_le : (str : List ℕ) → parse_opt c opt_action (some str) ≤ 1
  unfolding parse_opt
  action_le str = find_word_le action_words 0 str 1 (omega arith) (omega arith, (omega arith, tt))

  port_lt : (str : List ℕ) → parse_opt c opt_port (some str) < 2 ^ 16
  unfolding parse_opt
  port_lt str = omega arith

  parse_given-Parsed : (n : ℕ) (g : Given) (o : CmdOpts) → Parsed n o → Parsed n (parse_given c g o)
  unfolding parse_given
  parse_given-Parsed n g o p = record {
    chain = ground (
      arith,
      p.chain,
      arg_in (λ w. (w ≡ minus_one) ⊎ (w ≤ 3)) opt_chain g.arg o.chain p.chain
          (λ s. inr (chain_le s)),
    );
    action = ground (
      arith,
      p.action,
      arg_in (λ w. (w ≡ minus_one) ⊎ (w ≤ 1)) opt_action g.arg o.action p.action
          (λ s. inr (action_le s)),
    );
    sport =
        ground (arith, p.sport, arg_in (λ w. w < 2 ^ 16) opt_port g.arg o.sport p.sport port_lt);
    dport =
        ground (arith, p.dport, arg_in (λ w. w < 2 ^ 16) opt_port g.arg o.dport p.dport port_lt);
    number = ground (
      arith,
      p.number,
      arg_in (λ w. (w ≡ n) ⊎ (w < 2 ^ 16)) opt_port g.arg o.number p.number (λ s. inr (port_lt s)),
    );
  }

  parse_all-Parsed :
      (n : ℕ) (gs : List Given) (o : CmdOpts) → Parsed n o → Parsed n (parse_all c gs o)
  unfolding parse_all
  parse_all-Parsed n [] o p = p
  parse_all-Parsed n (g ∷ gs) o p =
      parse_all-Parsed n gs (parse_given c g o) (parse_given-Parsed n g o p)

  -- Whatever the options on the command line, the parsed chain is -1 or at most 3, the action is -1,
  -- DROP or ACCEPT, the ports have 16 bits, and the number is the one from before or has 16 bits.
  pub parse_command-Parsed :
      (gs : List Given) (o : CmdOpts) → Parsed o.number (parse_command c gs o)
  unfolding parse_command
  parse_command-Parsed gs o = parse_all-Parsed o.number gs _ (record {
    chain = inl refl;
    action = inl refl;
    sport = omega arith;
    dport = omega arith;
    number = inl refl;
  })

  parse_given-protocol :
      (g : Given) (o : CmdOpts) → g.letter ≢ b'p' → (parse_given c g o).protocol ≡ o.protocol
  unfolding parse_given
  parse_given-protocol g o h = ground arith

  parse_all-protocol :
      (gs : List Given) (o : CmdOpts)
      → All (λ g. g.letter ≢ b'p') gs
      → (parse_all c gs o).protocol ≡ o.protocol
  unfolding parse_all
  parse_all-protocol [] o a = refl
  parse_all-protocol (g ∷ gs) o a =
      parse_all-protocol gs (parse_given c g o) a.1 ∙ parse_given-protocol g o a.0

  -- Without an option -p, the protocol stays -1.
  pub parse_command-no_protocol :
      (gs : List Given) (o : CmdOpts)
      → All (λ g. g.letter ≢ b'p') gs
      → (parse_command c gs o).protocol ≡ minus_one
  unfolding parse_command
  parse_command-no_protocol gs o a = parse_all-protocol gs _ a

  parse_all-append :
      (gs hs : List Given) (o : CmdOpts)
      → parse_all c (gs ++ hs) o ≡ parse_all c hs (parse_all c gs o)
  unfolding parse_all
  parse_all-append [] hs o = refl
  parse_all-append (g ∷ gs) hs o = parse_all-append gs hs (parse_given c g o)

  -- The word that a last option -u leaves: its number with the two bytes exchanged.
  pub parse_command-number :
      (gs : List Given) (o : CmdOpts) (b : ℕ) (str : List ℕ)
      → b ≢ b':'
      → (parse_command c (gs ++ record { letter = b'u'; arg = some (b ∷ str) } ∷ []) o).number
        ≡ htons (c.strtoul (b ∷ str))
  unfolding parse_command parse_all parse_given parse_arg parse_opt
  parse_command-number gs o b str h =
      let other : (b == b':') ≡ false = ground arith in rw parse_all-append (rw other refl)
