-- ===== src/Tests/Files.antt =====
-- The configuration file, its lines, and the time stamps of the log.
use linux_program_practice.Base.{
  ℕ, zero, suc, ◌≡◌, refl, inl, some, List, [], ◌∷◌, ◌++◌, arith, codes,
}
use linux_program_practice.Tests.Data.{conf_with}
use linux_program_practice.Sipfw.ConfFile.{handle_conf, starts_with}
use linux_program_practice.Sipfw.ConfFile.Settings.{handle_conf-settings, IsLine, text, settings}

abbrev action_line : List ℕ
action_line = codes "DefaultAction=ACCEPT"

abbrev log_line : List ℕ
log_line = codes "LogFile=/tmp/log"

action_line-IsLine : IsLine action_line
unfolding starts_with
action_line-IsLine = record {
  plain = ground arith;
  some_bytes = omega arith;
  fits = omega arith;
  action_apart = λ h. omega arith;
  rules_apart = λ h. omega arith;
  log_apart = λ h. omega arith;
}

log_line-IsLine : IsLine log_line
unfolding starts_with
log_line-IsLine = record {
  plain = ground arith;
  some_bytes = omega arith;
  fits = omega arith;
  action_apart = λ h. omega arith;
  rules_apart = λ h. omega arith;
  log_apart = λ h. omega arith;
}

abbrev zeros : ℕ → List ℕ
zeros zero = []
zeros (suc n) = 0 ∷ zeros n

handle_conf-settings_example :
    handle_conf (some (text (action_line ∷ log_line ∷ []) ++ [])) (zeros 256) (conf_with 0)
    ≡ some (settings (action_line ∷ log_line ∷ []) (conf_with 0))
handle_conf-settings_example =
    handle_conf-settings (action_line ∷ log_line ∷ []) [] (zeros 256) (conf_with 0)
      (action_line-IsLine, (log_line-IsLine, tt)) (inl refl) refl
