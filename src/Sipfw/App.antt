-- ===== src/Sipfw/App.antt =====
-- LinuxCode/20/sipfw/app/sipfw_u.c: the command line of the user-space program `sipfw`
-- (SIPFW_ParseOpt, SIPFW_ParseCommand) and the check of what it asks for (SIPFW_JudgeCommand).
-- getopt_long, inet_addr and strtoul are the C library's: the first gives the list of options, the
-- others are parameters. A string is its bytes before the zero. `ifname` is left out, with the
-- option -i that sets it and nothing else. The machine is little-endian.
pub mod Options
pub mod Judge
pub mod Effect
pub mod Session
pub mod Display
use linux_program_practice.Base.{
  ℕ, ◌+◌, ◌-◌, ◌*◌, ◌/◌, ◌%◌, ◌^◌, Bool, not, ◌||◌, Option, none, some, List, [], ◌∷◌, ◌==◌,
  if◌then◌else◌, codes,
}
use linux_program_practice.Base.Int.{ℤ, pos, negsuc, eqb_ℤ, ltb_ℤ, signed32}
use linux_program_practice.Sipfw.Types.{
  CmdOpts, cmd_insert, cmd_delete, cmd_append, cmd_list, cmd_flush, cmd_replace, action_drop,
  chain_all,
}
use linux_program_practice.Sipfw.ConfFile.{starts_with}
use linux_program_practice.Sipfw.Netlink.{to_u32}

-- The conversions of the C library.
pub record Conversions : Type 0 where
  pub inet_addr : List ℕ → ℕ
  pub strtoul : List ℕ → ℕ

-- What a call of getopt_long gives: the letter, and the argument, if there is one.
pub record Given : Type 0 where
  pub letter : ℕ
  pub arg : Option (List ℕ)

-- The `int` -1 as a word.
abbrev pub minus_one : ℕ
minus_one = 2 ^ 32 - 1

abbrev pub htons : ℕ → ℕ
htons v = v % 256 * 256 + v / 256 % 256

abbrev pub chain_words : List (List ℕ × ℕ)
chain_words = (codes "INPUT", 0) ∷ (codes "OUTPUT", 1) ∷ (codes "FORWARD", 2) ∷ []

-- The names that the search for an action reaches: SIPFW_ACTION_NUM is 2.
abbrev pub action_words : List (List ℕ × ℕ)
action_words = (codes "DROP", 0) ∷ (codes "ACCEPT", 1) ∷ []

abbrev pub protocol_words : List (List ℕ × ℕ)
protocol_words = (codes "tcp", 6) ∷ (codes "udp", 17) ∷ (codes "icmp", 1) ∷ (codes "igmp", 2) ∷ []

-- The first name that `str` begins with; `other` where it begins with none.
unfoldable pub find_word : List (List ℕ × ℕ) → ℕ → List ℕ → ℕ
find_word [] other str = other
find_word ((word, value) ∷ rest) other str =
    let behind = find_word rest other str in if starts_with word str then value else behind

pub data OptKind : Type 0 where
  opt_chain opt_action opt_ip opt_port opt_protocol : OptKind

-- A bit field of `union addtion` set to 1.
abbrev pub set_bit : ℕ → ℕ → ℕ
set_bit k v = if v / 2 ^ k % 2 == 1 then v else v + 2 ^ k

-- tcp.valid = 1: the third byte of the union.
abbrev pub set_valid : ℕ → ℕ
set_valid v = v - v / 2 ^ 16 % 2 ^ 8 * 2 ^ 16 + 2 ^ 16

module _ (c : Conversions) where
  -- SIPFW_ParseOpt: the word written to `var`.
  unfoldable pub parse_opt : OptKind → Option (List ℕ) → ℕ
  parse_opt opt_chain none = chain_all
  parse_opt opt_chain (some str) = find_word chain_words chain_all str
  parse_opt opt_action none = action_drop
  parse_opt opt_action (some str) = find_word action_words action_drop str
  parse_opt opt_ip none = 0
  parse_opt opt_ip (some str) = c.inet_addr str % 2 ^ 32
  parse_opt opt_port none = 0
  parse_opt opt_port (some str) = htons (c.strtoul str)
  parse_opt opt_protocol none = 0
  parse_opt opt_protocol (some str) = find_word protocol_words 0 str

  -- The guard of a case, `l_opt_arg && l_opt_arg[0]!=':'`, and the parse under it: the member keeps
  -- its word where the guard fails.
  pub parse_arg : OptKind → Option (List ℕ) → ℕ → ℕ
  unfolding parse_opt
  parse_arg k none old = old
  parse_arg k (some []) old = parse_opt k (some [])
  parse_arg k (some (b ∷ bs)) old = if b == b':' then old else parse_opt k (some (b ∷ bs))

  -- A command with its optional chain.
  abbrev pub with_command : ℤ → Option (List ℕ) → CmdOpts → CmdOpts
  with_command cmd arg o = record o {
    command = to_u32 cmd;
    chain = parse_arg opt_chain arg o.chain;
  }

  abbrev pub with_flags : (ℕ → ℕ) → CmdOpts → CmdOpts
  with_flags set_flags o = record o { addtion = set_flags (set_valid o.addtion) }

  -- The `switch` of SIPFW_ParseCommand.
  unfoldable pub parse_given : Given → CmdOpts → CmdOpts
  unfolding parse_arg
  parse_given g o =
      if g.letter == b's'
      then record o { source = parse_arg opt_ip g.arg o.source }
      else if g.letter == b'd'
      then record o { dest = parse_arg opt_ip g.arg o.dest }
      else if g.letter == b'm'
      then record o { sport = parse_arg opt_port g.arg o.sport }
      else if g.letter == b'n'
      then record o { dport = parse_arg opt_port g.arg o.dport }
      else if g.letter == b'p'
      then record o { protocol = parse_arg opt_protocol g.arg o.protocol }
      else if g.letter == b'L'
      then with_command cmd_list g.arg o
      else if g.letter == b'F'
      then with_command cmd_flush g.arg o
      else if g.letter == b'A'
      then with_command cmd_append g.arg o
      else if g.letter == b'I'
      then with_command cmd_insert g.arg o
      else if g.letter == b'D'
      then with_command cmd_delete g.arg o
      else if g.letter == b'j'
      then record o { action = parse_arg opt_action g.arg o.action }
      else if g.letter == b'y'
      then with_flags (set_bit 9) o
      else if g.letter == b'r'
      then with_flags (set_bit 10) o
      else if g.letter == b'k'
      then with_flags (λ v. set_bit 9 (set_bit 12 v)) o
      else if g.letter == b'f'
      then with_flags (set_bit 8) o
      else if g.letter == b'u'
      then record o { number = parse_arg opt_port g.arg o.number }
      else o

  -- The loop of SIPFW_ParseCommand.
  unfoldable pub parse_all : List Given → CmdOpts → CmdOpts
  parse_all [] o = o
  parse_all (g ∷ gs) o = parse_all gs (parse_given g o)

  -- SIPFW_ParseCommand, which leaves `addtion` and `number` as main set them.
  unfoldable pub parse_command : List Given → CmdOpts → CmdOpts
  parse_command gs o = parse_all gs (record o {
    command = minus_one;
    source = 0;
    sport = 0;
    dest = 0;
    dport = 0;
    protocol = minus_one;
    chain = minus_one;
    action = minus_one;
  })

-- What main puts into cmd_opt before it parses the command line.
abbrev pub initial_opts : CmdOpts
initial_opts = record {
  command = minus_one;
  source = 0;
  dest = 0;
  sport = minus_one;
  dport = minus_one;
  protocol = minus_one;
  chain = minus_one;
  action = minus_one;
  addtion = 0;
  number = minus_one;
}

-- The tests of SIPFW_JudgeCommand on the chain, with SIPFW_CHAIN_NUM 3: `>` in four of the cases,
-- and `>=` in the other two.
abbrev pub chain_beyond : ℕ → Bool
chain_beyond chain = ltb_ℤ (pos 3) (signed32 chain) || ltb_ℤ (signed32 chain) (pos 0)

abbrev pub chain_outside : ℕ → Bool
chain_outside chain = not (ltb_ℤ (signed32 chain) (pos 3)) || ltb_ℤ (signed32 chain) (pos 0)

-- A return value with the options after it.
abbrev pub verdict : Bool → CmdOpts → ℤ × CmdOpts
verdict refuse o = (if refuse then negsuc 0 else pos 0, o)

-- The case of FLUSH and of LIST: no chain stands for all.
abbrev pub judge_all : CmdOpts → ℤ × CmdOpts
judge_all o =
    if o.chain == minus_one
    then verdict (chain_beyond chain_all) (record o { chain = chain_all })
    else verdict (chain_beyond o.chain) o

-- SIPFW_JudgeCommand. A bad INSERT leaves the switch with 0, any other INSERT falls through to the
-- case of LIST.
unfoldable pub judge_command : CmdOpts → ℤ × CmdOpts
judge_command o =
    if eqb_ℤ (signed32 o.command) cmd_append
    then verdict (chain_beyond o.chain || o.action == minus_one) o
    else if eqb_ℤ (signed32 o.command) cmd_delete
    then verdict (chain_beyond o.chain) o
    else if eqb_ℤ (signed32 o.command) cmd_flush
    then judge_all o
    else if eqb_ℤ (signed32 o.command) cmd_insert
    then (if chain_outside o.chain || o.number == minus_one then (pos 0, o) else judge_all o)
    else if eqb_ℤ (signed32 o.command) cmd_list
    then judge_all o
    else if eqb_ℤ (signed32 o.command) cmd_replace
    then verdict (chain_outside o.chain || o.number == minus_one) o
    else (negsuc 0, o)
