-- ===== src/Tests/App.antt =====
-- Command lines of the program `sipfw`.
use linux_program_practice.Sipfw.Netlink.Listing.{count_message, rule_message}
use linux_program_practice.Base.{
  ℕ, ◌-◌, ◌≡◌, refl, ◌≢◌, ◌↔◌, false, some, List, [], ◌∷◌, arith, All, codes,
}
use linux_program_practice.Tests.Data.{
  quiet, always_roomy, input_chain, no_rule, three_store, some_live, ssh_rule, web_rule, mail_rule,
  append_request, request_rule,
}
use linux_program_practice.Base.Int.{pos}
use linux_program_practice.Sipfw.Types.{Rule, CmdOpts, chain_all}
use linux_program_practice.Sipfw.Memory.{mark}
use linux_program_practice.Sipfw.ConfFile.{starts_with}
use linux_program_practice.Sipfw.Netlink.{
  Request, Channel, rule_list, rule_count, send_rules, send_chains, nl_send_to_user,
}
use linux_program_practice.Sipfw.App.{
  Conversions, Given, minus_one, initial_opts, parse_command, judge_command, parse_opt, parse_given,
  parse_all, find_word,
}
use linux_program_practice.Sipfw.App.Judge.{Allowed, chain_sent, judge_command_iff}
use linux_program_practice.Sipfw.App.Options.{Parsed, parse_command-Parsed}
use linux_program_practice.Sipfw.App.Session.{after_send, sent}
use linux_program_practice.Sipfw.App.Display.{received, lines_of, list_session}

-- Conversions of one digit, and of no address.
abbrev digit : List ℕ → ℕ
digit [] = 0
digit (b ∷ bs) = b - b'0'

abbrev conversions : Conversions
conversions = record { inet_addr = λ str. 0; strtoul = digit }

abbrev option : ℕ → List ℕ → Given
option letter str = record { letter = letter; arg = some str }

-- sipfw -A INPUT -m 8 -j ACCEPT
abbrev append_line : List Given
append_line =
    option b'A' (codes "INPUT") ∷ option b'm' (codes "8") ∷ option b'j' (codes "ACCEPT") ∷ []

append_parsed : parse_command conversions append_line initial_opts ≡ record {
  command = 2;
  source = 0;
  dest = 0;
  sport = 2048;
  dport = 0;
  protocol = minus_one;
  chain = 0;
  action = 1;
  addtion = 0;
  number = minus_one;
}
unfolding parse_command parse_all parse_given parse_opt find_word starts_with
append_parsed = refl

abbrev no_letter : All (λ g. g.letter ≢ b'p') append_line
no_letter = (omega arith, (omega arith, (omega arith, tt)))

parse_command-Parsed_example : Parsed minus_one (parse_command conversions append_line initial_opts)
parse_command-Parsed_example = parse_command-Parsed conversions append_line initial_opts

abbrev asked : CmdOpts → Request
asked o = record append_request { opts = o }

-- sipfw -D INPUTS -j ACCEPT, with the name misspelt
abbrev misspelt : List Given
misspelt = option b'D' (codes "IMPUT") ∷ option b'j' (codes "ACCEPT") ∷ []

misspelt_parsed : find_word ((codes "INPUT", 0) ∷ []) 3 (codes "IMPUT") ≡ 3
unfolding find_word starts_with
misspelt_parsed = refl

abbrev list_opts : CmdOpts
list_opts = record initial_opts { command = 3; chain = 3 }

judge_command_iff_example :
    (((judge_command list_opts).0 ≡ pos 0) ↔ Allowed list_opts)
    × ((judge_command list_opts).1 ≡ record list_opts { chain = chain_sent list_opts })
judge_command_iff_example = judge_command_iff list_opts

abbrev all_request : Rule
all_request = record request_rule { chain = pos chain_all }

abbrev after_list : Channel
after_list = record {
  store = record three_store { live = mark 200 false some_live };
  sent =
      count_message 77 3
      ∷ rule_message 77 ssh_rule
      ∷ rule_message 77 web_rule
      ∷ rule_message 77 mail_rule
      ∷ [];
}

list_answer : rule_list always_roomy all_request 77 quiet ≡ some after_list
unfolding rule_list rule_count send_rules send_chains nl_send_to_user
list_answer = refl

list_session_example :
    after_send list_opts (received after_list.sent)
    ≡ some (
        sent list_opts (record {
          lines = lines_of 3 (ssh_rule ∷ web_rule ∷ mail_rule ∷ []);
          left = [];
          waits = false;
        }))
list_session_example =
    list_session always_roomy all_request 77 quiet after_list input_chain no_rule no_rule list_opts
      refl refl refl refl refl refl (refl, (refl, (refl, tt))) (omega arith)
      (omega arith, (omega arith, (omega arith, tt))) list_answer refl
