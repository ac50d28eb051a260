-- ===== src/Tests/Parameters.antt =====
-- Files of parameters.
use linux_program_practice.Sipfw.ConfFile.{starts_with}
use linux_program_practice.Shttpd.Uri.{before_zero}
use linux_program_practice.Shttpd.Parameters.Compact.{para_file_parse-compact}
use linux_program_practice.Base.Int.{pos}
use linux_program_practice.Shttpd.Parameters.Settings.{Read, para_init-Read}
use linux_program_practice.Shttpd.Parameters.{
  ConfOpts, para_file_parse, parse_line, overrun, parse_value, set_named, scan_while,
  para_cmd_parse, para_init,
}
use linux_program_practice.Base.{
  ℕ, ◌≡◌, refl, some, List, [], ◌∷◌, ◌++◌, arith, codes, ◌⊎◌, Option, none,
}

abbrev no_value : List ℕ → ℕ
no_value s = 0

abbrev defaults : ConfOpts
defaults = record {
  cgi_root = codes "/usr/local/var/www/cgi-bin/";
  default_file = codes "index.html";
  document_root = codes "/usr/local/var/www/";
  config_file = codes "/etc/sHTTPd.conf";
  listen_port = pos 8080;
  max_client = pos 4;
  time_out = pos 3;
  init_client = pos 2;
}

-- A line with blanks around the equals sign empties the root of CGI programs.
port_line :
    parse_line no_value (codes "ListenPort = 80 " ++ 0 ∷ []) defaults
    ≡ some (record defaults { cgi_root = [] })
unfolding parse_line parse_value set_named scan_while before_zero starts_with
port_line = refl

abbrev one_file : List ℕ → Option (List ℕ)
one_file name = some (codes "ListenPort = 80 ")

para_init-Read_example :
    ((para_cmd_parse no_value ((b'f', some (codes "conf")) ∷ []) defaults ≡ none)
      × (para_init no_value one_file ((b'f', some (codes "conf")) ∷ []) defaults ≡ overrun))
    ⊎ ((d : ConfOpts) × (para_cmd_parse no_value ((b'f', some (codes "conf")) ∷ []) defaults
          ≡ some d)
        × Read d (para_init no_value one_file ((b'f', some (codes "conf")) ∷ []) defaults))
para_init-Read_example =
    para_init-Read no_value one_file ((b'f', some (codes "conf")) ∷ []) defaults

para_file_parse-compact_example :
    para_file_parse no_value
      (some (b'M' ∷ ((codes "axClient" ++ b'=' ∷ codes "8") ++ b'\n' ∷ [])))
      defaults
    ≡ overrun
para_file_parse-compact_example =
    para_file_parse-compact no_value b'M' (codes "axClient") (codes "8")
      (refl, (refl, (refl, (refl, (refl, (refl, (refl, (refl, (refl, tt))))))))) (omega arith)
      (refl, tt) (omega arith) [] defaults
