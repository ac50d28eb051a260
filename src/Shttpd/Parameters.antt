-- ===== src/Shttpd/Parameters.antt =====
-- LinuxCodeBak/Code/18/shttpd_parameters.c: the parameters of the web server, from the command line
-- and from a file. getopt_long gives the list of options, strtol is a parameter, with its result as
-- 64 bits, and a file is its bytes, read without an error. A parameter of type char[128] is its bytes
-- before the zero. An access outside of an array is the end `overrun`.
pub mod Lines
pub mod Settings
pub mod Compact
use linux_program_practice.Sipfw.ConfFile.{starts_with}
use mathlib.Core.Option
use linux_program_practice.Shttpd.Uri.{before_zero}
use linux_program_practice.Base.{
  ℕ, zero, suc, ◌+◌, ◌-◌, ◌*◌, ◌/◌, ◌%◌, ◌^◌, ◌≤◌, ◌<◌, min, ◌≡◌, refl, sym, ap, subst, ◌∙◌, ◌≢◌,
  ◌↔◌, ◌⊎◌, inl, inr, Bool, true, false, not, ◌&&◌, ◌||◌, Option, none, some, List, [], ◌∷◌, ◌++◌,
  map, append-nil, append_assoc, arith, ltb, leb, ◌==◌, if◌then◌else◌, ltb→lt, lt→ltb, leb→le,
  ==_iff, &&_iff, Bool-cases, Option-cases, ◌>>=◌, >>=-eq-some, length, get_elem?, set, take, drop,
  All, length-append, length-set, get_elem?-set_self, get_elem?-set_ne, All-set, All-get,
  take-append-drop, length-take, length-drop, codes, get_elem?-append, set-append, All-append,
  take-append, drop-append, get_elem?-none, get_elem?-lt,
}
use linux_program_practice.Base.Int.{ℤ, eqb_ℤ, signed32, pos, negsuc}

-- struct conf_opts
pub record ConfOpts : Type 0 where
  pub cgi_root : List ℕ
  pub default_file : List ℕ
  pub document_root : List ℕ
  pub config_file : List ℕ
  pub listen_port : ℤ
  pub max_client : ℤ
  pub time_out : ℤ
  pub init_client : ℤ

-- The loop of conf_readline, at index `i` of the buffer.
pub read_from : (len i : ℕ) → (begin : Bool) → (buff bytes : List ℕ) → ℕ × List ℕ × List ℕ
read_from len i begin buff [] = if ltb i len then (i, set buff i 0, []) else (i, buff, [])
read_from len i begin buff (c ∷ cs) =
    let skipped = read_from len i begin (set buff i c) cs in
    let copied = read_from len (i + 1) true (set buff i c) cs in
    if not (ltb i len)
    then (i, buff, c ∷ cs)
    else if c == b'\r' || c == b'\n'
    then (if begin then (i, set (set buff i c) i 0, cs) else skipped)
    else copied

abbrev pub zeros : ℕ → List ℕ
zeros zero = []
zeros (suc n) = 0 ∷ zeros n

-- conf_readline, with what it returns, the buffer, and the bytes that are left
unfoldable pub conf_readline : ℕ → List ℕ → ℕ × List ℕ × List ℕ
unfolding read_from
conf_readline len bytes = read_from len 0 false (zeros len) bytes

abbrev pub is_space : ℕ → Bool
is_space c = c == b' ' || leb 9 c && leb c 13

-- while (p(*pos)) pos++: by how much `pos` grows, from the bytes that it points to on. There may be
-- none left.
unfoldable pub scan_while : (ℕ → Bool) → List ℕ → Option ℕ
scan_while p [] = none
scan_while p (c ∷ cs) = let rest = scan_while p cs in if p c then Option.map suc rest else some 0

abbrev pub name_char : ℕ → Bool
name_char c = not (is_space c) && not (c == b'=')

abbrev pub value_char : ℕ → Bool
value_char c = not (is_space c) && not (c == b'\r') && not (c == b'\n')

-- memcpy of a string and its zero into a char[128].
abbrev pub copy_text : List ℕ → Option (List ℕ)
copy_text s = if ltb (length s) 128 then some s else none

module _ (strtol : List ℕ → ℕ) where
  -- The `int` that an assignment keeps of the result.
  abbrev pub to_int : List ℕ → ℤ
  to_int s = signed32 (strtol s % 2 ^ 32)

  -- What a line sets: strncmp is 0 where the strings are equal.
  unfoldable pub set_named : (name value : List ℕ) → ConfOpts → Option ConfOpts
  set_named name value c =
      if not (starts_with (codes "CGIRoot") name)
      then Option.map (λ t. record c { cgi_root = t }) (copy_text value)
      else if not (starts_with (codes "DefaultFile") name)
      then Option.map (λ t. record c { default_file = t }) (copy_text value)
      else if not (starts_with (codes "DocumentRoot") name)
      then Option.map (λ t. record c { document_root = t }) (copy_text value)
      else if not (starts_with (codes "ListenPort") name)
      then some (record c { listen_port = to_int value })
      else if not (starts_with (codes "MaxClient") name)
      then some (record c { max_client = to_int value })
      else if not (starts_with (codes "TimeOut") name)
      then some (record c { time_out = to_int value })
      else some c

  -- The body of the loop of Para_FileParse, behind the name that starts at `at` and ends at `stop`.
  unfoldable pub parse_value : (at stop : ℕ) → List ℕ → ConfOpts → Option ConfOpts
  parse_value at stop line c = do
    let named = set line stop 0
    d ← scan_while is_space (drop stop named)
    k ← scan_while value_char (drop (stop + d) named)
    let valued = set named (stop + d + k) 0
    set_named (before_zero (drop at valued)) (before_zero (drop (stop + d) valued)) c

  -- The body of the loop of Para_FileParse
  unfoldable pub parse_line : List ℕ → ConfOpts → Option ConfOpts
  parse_line line c = do
    at ← scan_while is_space line
    first ← get_elem? line at
    (if first == b'#'
        then some c
        else (do n ← scan_while name_char (drop at line); parse_value at (at + n) line c))

-- How reading a file ends. The fuel is never used up.
pub data ParseEnd : Type 0 where
  ended : ConfOpts → ParseEnd
  overrun starved : ParseEnd

abbrev pub on_ended : ParseEnd → (ConfOpts → ParseEnd) → ParseEnd
on_ended (ended c) f = f c
on_ended overrun f = overrun
on_ended starved f = starved

abbrev pub line_length : ℕ
line_length = 256

module _ (strtol : List ℕ → ℕ) where
  -- The loop of Para_FileParse: a count of 0 ends it.
  pub parse_lines : ℕ → List ℕ → ConfOpts → ParseEnd
  parse_lines zero bytes c = starved
  parse_lines (suc fuel) bytes c =
      let (n, line, rest) = conf_readline line_length bytes in
      let next : ParseEnd = elim (parse_line strtol line c) [
        | none ↦ overrun
        | some c ↦ parse_lines fuel rest c
      ] in
      if n == 0 then ended c else next

  -- Para_FileParse on the bytes of the file, if it can be opened
  unfoldable pub para_file_parse : Option (List ℕ) → ConfOpts → ParseEnd
  unfolding parse_lines
  para_file_parse none c = ended c
  para_file_parse (some bytes) c = parse_lines (suc (length bytes)) bytes c

  -- An argument that is there and does not begin with a colon.
  abbrev pub is_given : Option (List ℕ) → Option (List ℕ)
  is_given none = none
  is_given (some []) = some []
  is_given (some (c ∷ cs)) = if c == b':' then none else some (c ∷ cs)

  -- The `int` that a number sets, unless it is the greatest or the least `long`.
  abbrev pub number_or : ℤ → List ℕ → ℤ
  number_or old s =
      let value = to_int strtol s in
      if eqb_ℤ value (pos (2 ^ 63 - 1)) || eqb_ℤ value (negsuc (2 ^ 63 - 1)) then old else value

  -- The switch of Para_CmdParse, on an option whose argument is to be used.
  pub cmd_switch : ℕ → List ℕ → ConfOpts → Option ConfOpts
  cmd_switch letter s c =
      if letter == b'c'
      then Option.map (λ t. record c { cgi_root = t }) (copy_text s)
      else if letter == b'd'
      then Option.map (λ t. record c { default_file = t }) (copy_text s)
      else if letter == b'f'
      then Option.map (λ t. record c { config_file = t }) (copy_text s)
      else if letter == b'o'
      then Option.map (λ t. record c { document_root = t }) (copy_text s)
      else if letter == b'l'
      then some (record c { listen_port = number_or c.listen_port s })
      else if letter == b'm'
      then some (record c { max_client = number_or c.max_client s })
      else if letter == b't'
      then some (record c { time_out = number_or c.time_out s })
      else some c

  pub cmd_option : (ℕ × Option (List ℕ)) → ConfOpts → Option ConfOpts
  cmd_option (letter, arg) c = elim (is_given arg) [
    | none ↦ some c
    | some s ↦ cmd_switch letter s c
  ]

  -- Para_CmdParse, on the options that getopt_long gives
  pub para_cmd_parse : List (ℕ × Option (List ℕ)) → ConfOpts → Option ConfOpts
  para_cmd_parse [] c = some c
  para_cmd_parse (o ∷ os) c = do d ← cmd_option o c; para_cmd_parse os d

  -- The end of Para_Init, after the command line; `files` gives the bytes of a file.
  abbrev pub read_file : (files : List ℕ → Option (List ℕ)) → Option ConfOpts → ParseEnd
  read_file files none = overrun
  read_file files (some d) =
      if length d.config_file == 0 then ended d else para_file_parse (files d.config_file) d

  -- Para_Init
  unfoldable pub para_init :
      (files : List ℕ → Option (List ℕ)) → List (ℕ × Option (List ℕ)) → ConfOpts → ParseEnd
  para_init files os c = read_file files (para_cmd_parse os c)
