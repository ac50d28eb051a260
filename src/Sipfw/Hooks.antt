-- ===== src/Sipfw/Hooks.antt =====
-- LinuxCode/20/sipfw/module/sipfw_k.c: the netfilter hooks and the table that registers them.
pub mod Verdict
use linux_program_practice.Sipfw.Match.{is_match}
use linux_program_practice.Base.Int.{ℤ, pos, eqb_ℤ, signed32}
use linux_program_practice.Sipfw.LogFile.{LogEnv, LogLine, log_append}
use linux_program_practice.Base.{
  ℕ, ◌+◌, ◌%◌, ◌^◌, not, Option, none, some, List, [], ◌∷◌, ◌++◌, if◌then◌else◌, ◌>>=◌, get_elem?,
}
use linux_program_practice.Sipfw.Types.{Conf, Rule, RuleList, SkBuff, chain_input, chain_output}

-- What the hooks read and change: cf, sipfw_tables, the log, and the frames given to
-- dev_queue_xmit, latest last.
pub record Monitor : Type 0 where
  pub conf : Conf
  pub tables : List RuleList
  pub log : List LogLine
  pub frames : List (List ℕ)

-- NF_ACCEPT and NF_STOLEN
abbrev pub nf_accept : ℤ
nf_accept = pos 1

abbrev pub nf_stolen : ℤ
nf_stolen = pos 2

-- `found?found->action:cf.DefaultAction`
abbrev pub action_of : Conf → Option Rule → ℤ
action_of cf none = signed32 cf.default_action
action_of cf (some found) = found.action

-- The rule found is logged and counted.
abbrev pub record_hit : LogEnv → SkBuff → Rule → Monitor → Option Monitor
record_hit env skb found m = do
  log ← log_append env m.conf skb found m.log
  some (record m {
    conf = record m.conf { hit_number = (m.conf.hit_number + 1) % 2 ^ 32 };
    log = log;
  })

abbrev pub record_found : LogEnv → SkBuff → Option Rule → Monitor → Option Monitor
record_found env skb none m = some m
record_found env skb (some found) m = record_hit env skb found m

-- The body that SIPFW_HookLocalIn, SIPFW_HookLocaOut, SIPFW_HookPreRouting and
-- SIPFW_HookPostRouting share, with the chain that each of them searches.
pub filter_on : ℕ → LogEnv → SkBuff → Monitor → Option (ℤ × Monitor)
filter_on chain env skb m = if not (eqb_ℤ m.conf.invalid (pos 0)) then some (nf_accept, m) else (do
  l ← get_elem? m.tables chain
  n ← record_found env skb (is_match skb l.rules) m
  some (action_of m.conf (is_match skb l.rules), n))

unfoldable pub hook_local_in : LogEnv → SkBuff → Monitor → Option (ℤ × Monitor)
unfolding filter_on
hook_local_in = filter_on chain_input

unfoldable pub hook_loca_out : LogEnv → SkBuff → Monitor → Option (ℤ × Monitor)
unfolding filter_on
hook_loca_out = filter_on chain_output

unfoldable pub hook_pre_routing : LogEnv → SkBuff → Monitor → Option (ℤ × Monitor)
unfolding filter_on
hook_pre_routing = filter_on chain_output

unfoldable pub hook_post_routing : LogEnv → SkBuff → Monitor → Option (ℤ × Monitor)
unfolding filter_on
hook_post_routing = filter_on chain_output

-- The writes of SIPFW_HookForward to the frame's link-layer header, of at least 12 bytes.
pub rewrite_mac : List ℕ → Option (List ℕ)
rewrite_mac (a ∷ b ∷ c ∷ d ∷ e ∷ f ∷ g ∷ h ∷ i ∷ j ∷ k ∷ l ∷ payload) =
    some (0x00 ∷ 0x1F ∷ 0x3A ∷ 0xB1 ∷ 0xFA ∷ 0x60 ∷ a ∷ b ∷ c ∷ d ∷ e ∷ 0x15 ∷ payload)
rewrite_mac _ = none

-- SIPFW_HookForward: what stands behind its first `return` is never reached.
unfoldable pub hook_forward : List ℕ → Monitor → Option (ℤ × Monitor)
hook_forward frame m = do
  sent ← rewrite_mac frame
  some (nf_stolen, record m { frames = m.frames ++ sent ∷ [] })

-- The hook points, and sipfw_hooks.
pub data HookPoint : Type 0 where
  local_in local_out forward pre_routing post_routing : HookPoint

unfoldable pub sipfw_hooks : HookPoint → LogEnv → SkBuff → List ℕ → Monitor → Option (ℤ × Monitor)
unfolding hook_local_in hook_loca_out hook_forward hook_pre_routing hook_post_routing
sipfw_hooks local_in env skb frame m = hook_local_in env skb m
sipfw_hooks local_out env skb frame m = hook_loca_out env skb m
sipfw_hooks forward env skb frame m = hook_forward frame m
sipfw_hooks pre_routing env skb frame m = hook_pre_routing env skb m
sipfw_hooks post_routing env skb frame m = hook_post_routing env skb m
