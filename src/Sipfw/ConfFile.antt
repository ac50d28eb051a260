-- ===== src/Sipfw/ConfFile.antt =====
-- LinuxCode/20/sipfw/module/sipfw_k_file.c: SIPFW_ReadLine and SIPFW_HandleConf. A file is the bytes
-- that its read operation still gives, one a call; `f->f_pos <= inode->i_size` holds as long as it
-- gives any. `char` is signed, so EOF (-1) is the byte 255. A buffer is the list of its bytes, and a
-- write outside of it a fault.
pub mod Lines
pub mod Settings
use mathlib.Core.Option
use linux_program_practice.Base.{
  ℕ, zero, suc, ◌+◌, ◌-◌, Bool, true, false, not, ◌||◌, Option, none, some, List, [], ◌∷◌, ltb,
  ◌==◌, if◌then◌else◌, ◌>>=◌, length, get_elem?, set, drop, codes, ◌*◌, ◌/◌, ◌%◌, ◌^◌, ◌≤◌, ◌<◌,
  min, ◌≡◌, refl, sym, ap, subst, ◌∙◌, ◌≢◌, ◌↔◌, ◌⊎◌, inl, inr, ◌&&◌, ◌++◌, map, append-nil,
  append_assoc, arith, leb, ltb→lt, lt→ltb, leb→le, ==_iff, &&_iff, Bool-cases, Option-cases,
  >>=-eq-some, take, All, length-append, length-set, get_elem?-set_self, get_elem?-set_ne, All-set,
  All-get, take-append-drop, length-take, length-drop, get_elem?-append, set-append,
}
use linux_program_practice.Sipfw.Types.{Conf, action_accept, action_drop}

abbrev pub eof : ℕ
eof = 255

abbrev pub line_size : ℕ
line_size = 256

-- buf[i] = b
abbrev pub poke : List ℕ → ℕ → ℕ → Option (List ℕ)
poke buf i b = if ltb i (length buf) then some (set buf i b) else none

pub record ReadLine : Type 0 where
  pub count : ℕ
  pub buf : List ℕ
  pub rest : List ℕ

-- The tests of the loop of SIPFW_ReadLine on the byte at the pointer.
abbrev pub ends_line : ℕ → Bool
ends_line b = b == eof || b == 0 || b == b'\n' || b == b'\r'

-- What follows the loop: the byte at the pointer, at index `i`, is replaced or a zero put behind it.
pub finish_line : ℕ → ℕ → List ℕ → List ℕ → Option ReadLine
finish_line count i buf rest = do
  b ← get_elem? buf i
  (if b == b'\r' || b == b'\n' || b == eof
      then (do out ← poke buf i 0; some (record { count = count - 1; buf = out; rest = rest }))
      else (do out ← poke buf (i + 1) 0; some (record { count = count; buf = out; rest = rest })))

-- The loop, with the pointer at index `i` and the bytes not yet read. At the end of the file the
-- pointer has moved on to a byte that this call has not written.
pub read_bytes : ℕ → ℕ → ℕ → List ℕ → List ℕ → Option ReadLine
read_bytes len count i buf [] = do
  b ← get_elem? buf i
  (if ends_line b || not (ltb count len)
      then finish_line count i buf []
      else finish_line count (i + 1) buf [])
read_bytes len count i buf (c ∷ cs) = do
  b ← get_elem? buf i
  let next = poke buf (i + 1) c >>= λ out. read_bytes len (count + 1) (i + 1) out cs
  (if ends_line b || not (ltb count len) then finish_line count i buf (c ∷ cs) else next)

-- SIPFW_ReadLine on a file that can be read. A count of 0 stands for the end of the file, a first
-- byte EOF, and an empty line.
unfoldable pub read_line : ℕ → List ℕ → List ℕ → Option ReadLine
unfolding finish_line read_bytes
read_line len buf [] = some (record { count = 0; buf = buf; rest = [] })
read_line len buf (c ∷ cs) = do
  out ← poke buf 0 c
  (if c == eof
      then some (record { count = 0; buf = out; rest = cs })
      else read_bytes len 1 0 out cs)

-- !strncmp(pos, word, length of word), for a word without a zero.
unfoldable pub starts_with : List ℕ → List ℕ → Bool
starts_with [] bytes = true
starts_with (w ∷ ws) [] = false
starts_with (w ∷ ws) (b ∷ bs) = if b == w then starts_with ws bs else false

-- The string at a pointer: the bytes up to the first zero. It is a fault to read on behind the
-- buffer.
unfoldable pub c_string : List ℕ → Option (List ℕ)
c_string [] = none
c_string (b ∷ bs) = if b == 0 then some [] else Option.map (λ s. b ∷ s) (c_string bs)

abbrev pub word_default_action : List ℕ
word_default_action = codes "DefaultAction"

abbrev pub word_rules_file : List ℕ
word_rules_file = codes "RulesFile"

abbrev pub word_log_file : List ℕ
word_log_file = codes "LogFile"

abbrev pub word_accept : List ℕ
word_accept = codes "ACCEPT"

abbrev pub word_drop : List ℕ
word_drop = codes "DROP"

-- The body of the loop of SIPFW_HandleConf on a line in its buffer.
pub handle_line : List ℕ → Conf → Option Conf
handle_line line cf =
    if starts_with word_default_action line
    then (if starts_with word_accept (drop 14 line)
        then some (record cf { default_action = action_accept })
        else if starts_with word_drop (drop 14 line)
        then some (record cf { default_action = action_drop })
        else some cf)
    else if starts_with word_rules_file line
    then Option.map (λ path. record cf { rule_file_path = path }) (c_string (drop 10 line))
    else if starts_with word_log_file line
    then Option.map (λ path. record cf { log_file_path = path }) (c_string (drop 8 line))
    else some cf

-- The loop of SIPFW_HandleConf. Every round takes at least one byte from the file, so the length of
-- the file is fuel enough; the last case is not reached with it.
pub handle_lines : ℕ → List ℕ → List ℕ → Conf → Option Conf
handle_lines zero buf content cf = none
handle_lines (suc fuel) buf content cf = do
  l ← read_line line_size buf content
  let next = handle_line l.buf cf >>= λ changed. handle_lines fuel l.buf l.rest changed
  (if l.count == 0 then some cf else next)

-- SIPFW_HandleConf: `none` is a file that does not open, which leaves cf as it is, and `buf` what
-- the uninitialised buffer holds.
unfoldable pub handle_conf : Option (List ℕ) → List ℕ → Conf → Option Conf
unfolding handle_lines handle_line
handle_conf none buf cf = some cf
handle_conf (some content) buf cf = handle_lines (suc (length content)) buf content cf
