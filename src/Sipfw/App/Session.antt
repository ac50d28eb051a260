-- ===== src/Sipfw/App/Session.antt =====
-- LinuxCode/20/sipfw/app/sipfw_u.c: main and SIPFW_NLRecvRuleList. What recvfrom gives is a list, one
-- element a call; where it is used up, the program waits in recvfrom. `none` is an access outside an
-- object: a name looked up behind the last, or a view of the payload that the sender did not fill.
use linux_program_practice.Base.{
  ℕ, zero, suc, ◌%◌, Bool, true, false, not, ◌&&◌, ◌||◌, Option, none, some, List, [], ◌∷◌, ltb,
  ◌==◌, if◌then◌else◌,
}
use mathlib.Core.Option
use linux_program_practice.Base.Int.{ℤ, pos, negsuc, eqb_ℤ, ltb_ℤ, signed32}
use linux_program_practice.Sipfw.Types.{Rule, CmdOpts, cmd_list}
use linux_program_practice.Sipfw.Netlink.{Body, count, entry, text, to_u32}
use linux_program_practice.Sipfw.App.{
  Conversions, Given, htons, initial_opts, judge_command, parse_command,
}

-- The result of a SIPFW_NLRecv: a negative size, 0, or a message.
pub data Received : Type 0 where
  failed : Received
  nothing : Received
  got : Body → Received

-- A printed line, with the number of the chain where its name and the titles are printed before.
-- The action is the index of its name, `none` for NOTSET.
pub record Line : Type 0 where
  pub header : Option ℕ
  pub action : Option ℕ
  pub source : ℕ
  pub sport : ℕ
  pub dest : ℕ
  pub dport : ℕ
  pub proto : ℕ

-- What a loop of SIPFW_NLRecvRuleList leaves: the lines, what is not received yet, and whether the
-- program still waits.
pub record Shown : Type 0 where
  pub lines : List Line
  pub left : List Received
  pub waits : Bool

abbrev pub with_line : Line → Shown → Shown
with_line l s = record s { lines = l ∷ s.lines }

-- The index of the printed name: the test is `action>-1 && action <3`.
abbrev pub action_index : ℤ → Option ℕ
action_index a = if ltb_ℤ (negsuc 0) a && ltb_ℤ a (pos 3) then some (to_u32 a) else none

-- The body of the loop on a rule, with `chain_org` before it: sipfw_chain_name has four entries.
abbrev pub line_of : ℕ → Rule → Line
line_of chain_org r = record {
  header = if to_u32 r.chain % 256 == chain_org then none else some (to_u32 r.chain % 256);
  action = action_index r.action;
  source = r.source;
  sport = htons r.sport;
  dest = r.dest;
  dport = htons r.dport;
  proto = r.protocol % 256;
}

abbrev pub has_name : ℕ → Bool
has_name chain = ltb chain 4

-- SIPFW_NLRecvRuleList, for the rounds left and the `chain_org` so far.
unfoldable pub recv_rules : ℕ → ℕ → List Received → Option Shown
recv_rules zero chain_org rs = some (record { lines = []; left = rs; waits = false })
recv_rules (suc n) chain_org [] = some (record { lines = []; left = []; waits = true })
recv_rules (suc n) chain_org (failed ∷ rs) = recv_rules n chain_org rs
recv_rules (suc n) chain_org (nothing ∷ rs) = none
recv_rules (suc n) chain_org (got (count k) ∷ rs) = none
recv_rules (suc n) chain_org (got (text t) ∷ rs) = none
recv_rules (suc n) chain_org (got (entry r) ∷ rs) =
    let rest = recv_rules n (to_u32 r.chain % 256) rs in
    if to_u32 r.chain % 256 == chain_org || has_name (to_u32 r.chain % 256)
    then Option.map (with_line (line_of chain_org r)) rest
    else none

-- How main ends: with -1, with 0 after what it printed, or not at all.
pub data Exit : Type 0 where
  refused : Exit
  send_failed : CmdOpts → Exit
  sent : CmdOpts → Shown → Exit
  no_answer : CmdOpts → Exit

-- What follows the message, from the first answer on.
unfoldable pub after_send : CmdOpts → List Received → Option Exit
unfolding recv_rules
after_send o [] = some (sent o (record { lines = []; left = []; waits = true }))
after_send o (failed ∷ rs) = some (no_answer o)
after_send o (nothing ∷ rs) =
    if eqb_ℤ (signed32 o.command) cmd_list
    then some (no_answer o)
    else some (sent o (record { lines = []; left = rs; waits = false }))
after_send o (got (count k) ∷ rs) =
    let listed = Option.map (sent o) (recv_rules k 3 rs) in
    if eqb_ℤ (signed32 o.command) cmd_list
    then listed
    else some (sent o (record { lines = []; left = rs; waits = false }))
after_send o (got b ∷ rs) =
    if eqb_ℤ (signed32 o.command) cmd_list
    then none
    else some (sent o (record { lines = []; left = rs; waits = false }))

-- main: `delivered` is whether sendto succeeds. The result of SIPFW_NLCreate is not read.
unfoldable pub main : Conversions → Bool → List Given → List Received → Option Exit
unfolding after_send
main c delivered gs rs =
    let (refusal, o) = judge_command (parse_command c gs initial_opts) in
    let answered = after_send o rs in
    if not (eqb_ℤ refusal (pos 0))
    then some refused
    else if not delivered
    then some (send_failed o)
    else answered
