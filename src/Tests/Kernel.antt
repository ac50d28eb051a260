-- ===== src/Tests/Kernel.antt =====
-- The proc files and the loading of the module.
use linux_program_practice.Base.{ℕ, ◌≡◌, refl, true, false, none, some, List, [], All, codes}
use linux_program_practice.Tests.Data.{conf_with, three_store}
use linux_program_practice.Sipfw.ConfFile.{handle_conf}
use linux_program_practice.Sipfw.Proc.Cookie.{IsNonzero}
use linux_program_practice.Sipfw.Loading.{Holdings, Kernel}
use linux_program_practice.Sipfw.Loading.Cleanup.{Loaded}
use linux_program_practice.Base.Int.{pos}

abbrev drop_word : List ℕ
drop_word = codes "DROP"

abbrev accept_word : List ℕ
accept_word = codes "ACCEPT"

drop_word-IsNonzero : All IsNonzero drop_word
drop_word-IsNonzero = (refl, (refl, (refl, (refl, tt))))

accept_word-IsNonzero : All IsNonzero accept_word
accept_word-IsNonzero = (refl, (refl, (refl, (refl, (refl, (refl, tt))))))

abbrev no_logpause : Kernel
no_logpause = record {
  content = none;
  line_buf = [];
  makes_socket = true;
  makes_cookie = true;
  makes_directory = true;
  makes_information = true;
  makes_defaultaction = true;
  makes_logpause = false;
  makes_invalid = true;
  registers = pos 0;
}

no_file : handle_conf none [] (conf_with 0) ≡ some (conf_with 0)
unfolding handle_conf
no_file = refl

abbrev all_held : Holdings
all_held = record {
  conf = conf_with 0;
  store = three_store;
  nlfd = true;
  socket = true;
  cookie = true;
  directory = true;
  information = true;
  defaultaction = true;
  logpause = true;
  invalid = true;
  hooks = true;
}

all_held-Loaded : Loaded all_held
all_held-Loaded = record {
  nlfd = refl;
  socket = refl;
  cookie = refl;
  information = refl;
  defaultaction = refl;
  logpause = refl;
  invalid = refl;
  hooks = refl;
}
