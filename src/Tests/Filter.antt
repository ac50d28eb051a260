-- ===== src/Tests/Filter.antt =====
-- The match and the hooks on a web packet.
use linux_program_practice.Base.Int.{pos}
use linux_program_practice.Base.{ℕ, ◌≡◌, refl, ◌≢◌, true, some, []}
use linux_program_practice.Tests.Data.{web_rule, web_packet, conf_with, three_tables, input_chain}
use linux_program_practice.Sipfw.Match.First.{is_match-Decides, Decides}
use linux_program_practice.Sipfw.Match.{
  is_match, is_ip_match, is_addtion_match, ports_match, flags_match,
}
use linux_program_practice.Sipfw.Hooks.{Monitor, sipfw_hooks, local_in, forward, hook_local_in}
use linux_program_practice.Sipfw.Hooks.Verdict.{sipfw_hooks-Filtered, Verdict}
use linux_program_practice.Sipfw.LogFile.{LogEnv, log_append}

is_match-Decides_example :
    Decides web_packet input_chain.rules (is_match web_packet input_chain.rules)
is_match-Decides_example = is_match-Decides web_packet input_chain.rules

abbrev monitor : ℕ → Monitor
monitor pause = record { conf = conf_with pause; tables = three_tables; log = []; frames = [] }

abbrev env_at : ℕ → LogEnv
env_at now = record {
  now = now;
  file = some (record {
    has_inode = true;
    mode_read = true;
    mode_write = true;
    has_read = true;
    has_write = true;
    write_works = true;
  });
}

abbrev counted : Monitor
counted = record {
  conf = record (conf_with 1) { hit_number = 8 };
  tables = three_tables;
  log = [];
  frames = [];
}

web_hit : is_match web_packet input_chain.rules ≡ some web_rule
unfolding is_match is_ip_match is_addtion_match ports_match flags_match
web_hit = refl

verdict_counted : sipfw_hooks local_in (env_at 0) web_packet [] (monitor 1) ≡ some (pos 1, counted)
unfolding sipfw_hooks log_append hook_local_in is_match is_ip_match is_addtion_match ports_match
    flags_match
verdict_counted = refl

local_in≢forward : local_in ≢ forward
local_in≢forward e = cc

sipfw_hooks-Filtered_example :
    Verdict
      (env_at 0)
      web_packet
      input_chain
      (monitor 1)
      (sipfw_hooks local_in (env_at 0) web_packet [] (monitor 1))
sipfw_hooks-Filtered_example =
    sipfw_hooks-Filtered local_in (env_at 0) web_packet [] (monitor 1) input_chain local_in≢forward
      refl refl
