-- ===== src/Tests/Tables.antt =====
-- The handlers of the rule tables on a chain of three rules.
use linux_program_practice.Base.Int.{pos}
use linux_program_practice.Base.{◌≡◌, refl, ◌≢◌, true, false, some, [], ◌∷◌, arith, All, inr}
use linux_program_practice.Tests.Data.{
  ssh_rule, web_rule, mail_rule, request_rule, no_rule, input_chain, three_tables, some_live,
  three_store,
}
use linux_program_practice.Sipfw.Types.{Rule, chain_all}
use linux_program_practice.Sipfw.Memory.{Live, Owned, mark}
use linux_program_practice.Sipfw.Tables.{
  same_rule, rule_delete, rule_insert, rule_flush, list_destroy, Store,
}
use linux_program_practice.Sipfw.Tables.Seek.{Fresh}
use linux_program_practice.Sipfw.Tables.Good.{Good, Keeps}
use linux_program_practice.Sipfw.Tables.Delete.{rule_delete-number, unlinked_from}
use linux_program_practice.Sipfw.Tables.Insert.{Insertable}
use linux_program_practice.Sipfw.Tables.InsertSafety.{rule_insert-Keeps}
use linux_program_practice.Sipfw.Tables.Safety.{rule_delete-Keeps}
use linux_program_practice.Sipfw.Tables.Flush.{list_destroy-leaks, LeaksLast, empty_tables}

pub three_tables-Owned : Owned three_tables some_live
three_tables-Owned a = ground arith

pub request_rule-Fresh : Fresh request_rule three_store
request_rule-Fresh = record { allocated = refl; unlinked = refl }

pub three_store-Good : Good three_store
three_store-Good = record {
  owned = three_tables-Owned;
  bounded = (ground arith, (ground arith, (ground arith, tt)));
}

rule_delete-number_example :
    rule_delete request_rule (pos 2) three_store
    ≡ some (
        unlinked_from three_store request_rule input_chain
          (ssh_rule ∷ [])
          web_rule
          (mail_rule ∷ []))
rule_delete-number_example =
    rule_delete-number three_store request_rule input_chain (ssh_rule ∷ []) web_rule
      (mail_rule ∷ []) three_tables-Owned refl request_rule-Fresh refl (omega arith)

ssh_is_other : All (λ r. same_rule r request_rule ≡ false) (ssh_rule ∷ [])
unfolding same_rule
ssh_is_other = (refl, tt)

web_is_same : same_rule web_rule request_rule ≡ true
unfolding same_rule
web_is_same = refl

abbrev other_request : Rule
other_request = record request_rule { dport = 443 }

other_request_differs : All (λ r. same_rule r other_request ≡ false) input_chain.rules
unfolding same_rule
other_request_differs = (refl, (refl, (refl, tt)))

nonempty : input_chain.rules ≢ []
nonempty e = cc

rule_insert-Keeps_example : Keeps (rule_insert request_rule (pos 2) three_store)
rule_insert-Keeps_example =
    rule_insert-Keeps three_store request_rule input_chain refl (pos 2) three_store-Good
      request_rule-Fresh (inr (inr (inr (omega arith, omega arith))))

zero_is_null : ¬ Insertable input_chain (pos 0)
zero_is_null i = ground arith

rule_delete-Keeps_example : Keeps (rule_delete request_rule (pos 3) three_store)
rule_delete-Keeps_example =
    rule_delete-Keeps three_store request_rule input_chain three_store-Good refl request_rule-Fresh
      (pos 3)

list_destroy-leaks_example :
    (later : Live) × (list_destroy three_store
      ≡ some (record { tables = empty_tables; live = later }))
    × LeaksLast three_tables some_live later (some mail_rule)
list_destroy-leaks_example =
    list_destroy-leaks three_store input_chain no_rule no_rule refl three_tables-Owned

abbrev all_request : Rule
all_request = record request_rule { chain = pos chain_all }

all_request-Fresh : Fresh all_request three_store
all_request-Fresh = record { allocated = refl; unlinked = refl }

abbrev flushed_store : Store
flushed_store = record {
  tables = no_rule ∷ no_rule ∷ no_rule ∷ [];
  live = mark 200 false (mark 101 false (mark 100 false some_live));
}

flush_returns : rule_flush request_rule three_store ≡ some flushed_store
unfolding rule_flush
flush_returns = refl
