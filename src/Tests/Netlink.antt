-- ===== src/Tests/Netlink.antt =====
-- Requests to the tables of three rules.
use linux_program_practice.Base.Int.{pos, negsuc}
use linux_program_practice.Base.{◌≡◌, refl, ◌≢◌, true, some, [], ◌∷◌, arith}
use linux_program_practice.Tests.Data.{
  quiet, some_live, no_rule, append_request, always_roomy, request_rule, ssh_rule, web_rule,
  mail_rule,
}
use linux_program_practice.Tests.Tables.{three_store-Good}
use linux_program_practice.Sipfw.Types.{Rule, chain_all, cmd_insert}
use linux_program_practice.Sipfw.Memory.{mark}
use linux_program_practice.Sipfw.Tables.{rule_addpend}
use linux_program_practice.Sipfw.Tables.Good.{Good}
use linux_program_practice.Sipfw.Tables.Exact.{Exact}
use linux_program_practice.Sipfw.Netlink.{
  Channel, new_rule, nl_do_action, dispatch, nl_send_to_user, msg_success, text, allocated,
}
use linux_program_practice.Sipfw.Netlink.Dispatch.{Handled}
use linux_program_practice.Sipfw.Netlink.History.{
  History, start, serve, History-Good, History-Exact, nl_do_action-Handled,
}

abbrev appended_rule : Rule
appended_rule = record {
  addr = 300;
  chain = pos 0;
  source = 0;
  dest = 0;
  sport = 0;
  dport = 443;
  protocol = 6;
  action = pos 1;
  addtion = 0;
}

abbrev answered : Channel
answered = record {
  store = record {
    tables =
        record { rules = ssh_rule ∷ web_rule ∷ mail_rule ∷ appended_rule ∷ []; number = pos 4 }
        ∷ no_rule
        ∷ no_rule
        ∷ [];
    live = mark 300 true some_live;
  };
  sent = record { pid = 77; kind = msg_success; body = text "SUCCESS" } ∷ [];
}

append_answered : nl_do_action always_roomy append_request quiet ≡ some answered
unfolding nl_do_action dispatch new_rule rule_addpend nl_send_to_user
append_answered = refl

nl_do_action-Handled_example :
    Handled
      (pos 2)
      (negsuc 0)
      (new_rule 300 append_request)
      (allocated 300 quiet).store
      answered.store
nl_do_action-Handled_example =
    nl_do_action-Handled always_roomy append_request 300 quiet answered refl append_answered

append_is_no_insert : pos 2 ≢ cmd_insert
append_is_no_insert = ground arith

abbrev one_append : History always_roomy (λ cmd. cmd ≢ cmd_insert) quiet answered
one_append = serve append_request 300 start append_is_no_insert refl refl append_answered

History-Good_example : Good answered.store
History-Good_example =
    History-Good always_roomy (λ cmd. cmd ≢ cmd_insert) quiet answered three_store-Good one_append

History-Exact_example : Exact answered.store
History-Exact_example =
    History-Exact always_roomy quiet answered (refl, (refl, (refl, tt))) one_append

abbrev all_request : Rule
all_request = record request_rule { chain = pos chain_all }
