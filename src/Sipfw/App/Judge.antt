-- ===== src/Sipfw/App/Judge.antt =====
-- What SIPFW_JudgeCommand lets through.
use linux_program_practice.Base.{
  ℕ, ◌≤◌, ◌<◌, ◌≡◌, ◌≢◌, ◌↔◌, ◌⊎◌, inl, inr, ◌&&◌, ◌||◌, arith, ◌==◌, if◌then◌else◌, Bool-cases,
}
use linux_program_practice.Base.Int.{ℤ, pos, signed32, eqb_ℤ, eqb_ℤ_iff}
use linux_program_practice.Sipfw.Types.{
  CmdOpts, chain_all, cmd_insert, cmd_delete, cmd_append, cmd_list, cmd_flush, cmd_replace,
}
use linux_program_practice.Sipfw.App.{minus_one, judge_command}

abbrev pub Asks : ℤ → CmdOpts → Type 0
Asks cmd o = signed32 o.command ≡ cmd

-- The requests that are sent. Chain 3 stands for all chains, but is let through for APPEND and
-- DELETE too; an INSERT is never refused.
pub data Allowed (o : CmdOpts) : Type 0 where
  append_allowed : Asks cmd_append o → o.chain ≤ 3 → o.action ≢ minus_one → Allowed o
  delete_allowed : Asks cmd_delete o → o.chain ≤ 3 → Allowed o
  insert_allowed : Asks cmd_insert o → Allowed o
  flush_allowed : Asks cmd_flush o → (o.chain ≡ minus_one) ⊎ (o.chain ≤ 3) → Allowed o
  list_allowed : Asks cmd_list o → (o.chain ≡ minus_one) ⊎ (o.chain ≤ 3) → Allowed o
  replace_allowed : Asks cmd_replace o → o.chain < 3 → o.number ≢ minus_one → Allowed o

-- What is sent for it: a missing chain of FLUSH and LIST is replaced by all chains.
abbrev pub chain_sent : CmdOpts → ℕ
chain_sent o =
    if (eqb_ℤ (signed32 o.command) cmd_flush || eqb_ℤ (signed32 o.command) cmd_list)
      && o.chain == minus_one
    then chain_all
    else o.chain

-- One rung of the ladder of tests.
rung :
    (o : CmdOpts) (k : ℤ) (x y : ℤ × CmdOpts)
    → (Asks k o → x.0 ≡ pos 0 → Allowed o)
    → (y.0 ≡ pos 0 → Allowed o)
    → (if eqb_ℤ (signed32 o.command) k then x else y).0 ≡ pos 0
    → Allowed o
rung o k x y asked other h = elim (Bool-cases (eqb_ℤ (signed32 o.command) k)) [
  | inl is ↦ asked ((eqb_ℤ_iff (signed32 o.command) k).0 is) (rw is at h)
  | inr isnt ↦ other (rw isnt at h)
]

judge-Allowed : (o : CmdOpts) → (judge_command o).0 ≡ pos 0 → Allowed o
unfolding judge_command
judge-Allowed o =
    rung o cmd_append _ _ (λ k h. append_allowed k (ground arith) (ground arith))
      (rung o cmd_delete _ _ (λ k h. delete_allowed k (ground arith))
        (rung o cmd_flush _ _ (λ k h. flush_allowed k (ground arith))
          (rung o cmd_insert _ _ (λ k h. insert_allowed k)
            (rung o cmd_list _ _ (λ k h. list_allowed k (ground arith))
              (rung o cmd_replace _ _ (λ k h. replace_allowed k (ground arith) (ground arith))
                (λ h. absurd (ground arith)))))))

Allowed-judge : (o : CmdOpts) → Allowed o → (judge_command o).0 ≡ pos 0
unfolding judge_command
Allowed-judge o (append_allowed k c a) = ground arith
Allowed-judge o (delete_allowed k c) = ground arith
Allowed-judge o (insert_allowed k) = ground arith
Allowed-judge o (flush_allowed k c) = ground arith
Allowed-judge o (list_allowed k c) = ground arith
Allowed-judge o (replace_allowed k c a) = ground arith

sent_chain : (o : CmdOpts) → (judge_command o).1 ≡ record o { chain = chain_sent o }
unfolding judge_command
sent_chain o = ground arith

-- SIPFW_JudgeCommand returns 0 exactly on the requests in `Allowed`, and on all of them it changes
-- nothing but a missing chain of FLUSH and LIST, which becomes SIPFW_CHAIN_ALL.
pub judge_command_iff :
    (o : CmdOpts)
    → (((judge_command o).0 ≡ pos 0) ↔ Allowed o)
      × ((judge_command o).1 ≡ record o { chain = chain_sent o })
judge_command_iff o = ((judge-Allowed o, Allowed-judge o), sent_chain o)
