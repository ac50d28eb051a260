-- ===== src/Sipfw/ConfFile/Settings.antt =====
-- SIPFW_HandleConf against a reading of the configuration line by line.
use linux_program_practice.Sipfw.ConfFile.{
  c_string, handle_line, starts_with, line_size, word_default_action, word_accept, word_rules_file,
  word_log_file, word_drop, handle_conf, handle_lines, read_line, ReadLine,
}
use linux_program_practice.Sipfw.ConfFile.Lines.{IsPlain, read_line_lem, read_line_empty}
use linux_program_practice.Base.{
  ℕ, zero, suc, ◌≤◌, ◌<◌, ◌≡◌, refl, ◌∙◌, ◌⊎◌, inl, inr, Bool, true, false, not, ◌&&◌, some, List,
  [], ◌∷◌, ◌++◌, append_assoc, arith, ◌==◌, if◌then◌else◌, Bool-cases, length, drop, All,
  length-append, length-drop,
}
use linux_program_practice.Sipfw.Types.{Conf, action_accept, action_drop}

-- The lines of a file, each with its newline.
abbrev pub text : List (List ℕ) → List ℕ
text [] = []
text (line ∷ lines) = line ++ b'\n' ∷ text lines

-- What a line sets: a key word, a separator, and the value to the end of the line.
pub setting : List ℕ → Conf → Conf
setting line cf =
    if starts_with word_default_action line
    then (if starts_with word_accept (drop 14 line)
        then record cf { default_action = action_accept }
        else if starts_with word_drop (drop 14 line)
        then record cf { default_action = action_drop }
        else cf)
    else if starts_with word_rules_file line
    then record cf { rule_file_path = drop 10 line }
    else if starts_with word_log_file line
    then record cf { log_file_path = drop 8 line }
    else cf

abbrev pub settings : List (List ℕ) → Conf → Conf
settings [] cf = cf
settings (line ∷ lines) cf = settings lines (setting line cf)

-- A line that SIPFW_ReadLine reads whole, with a separator behind its key word if it has one.
pub record IsLine (line : List ℕ) : Type 0 where
  pub plain : All IsPlain line
  pub some_bytes : 0 < length line
  pub fits : length line < line_size
  pub action_apart : starts_with word_default_action line ≡ true → 13 < length line
  pub rules_apart : starts_with word_rules_file line ≡ true → 9 < length line
  pub log_apart : starts_with word_log_file line ≡ true → 7 < length line

abbrev has_no_zero : List ℕ → Bool
has_no_zero [] = true
has_no_zero (b ∷ bs) = not (b == 0) && has_no_zero bs

starts_with-append :
    (word line tail : List ℕ)
    → has_no_zero word ≡ true
    → starts_with word (line ++ 0 ∷ tail) ≡ starts_with word line
unfolding starts_with
starts_with-append [] line tail n = refl
starts_with-append (w ∷ ws) [] tail n = ground arith
starts_with-append (w ∷ ws) (b ∷ bs) tail n =
    ground (arith, starts_with-append ws bs tail (ground arith))

drop-append : (n : ℕ) (xs ys : List ℕ) → n ≤ length xs → drop n (xs ++ ys) ≡ drop n xs ++ ys
drop-append zero xs ys h = refl
drop-append (suc n) [] ys h = elim h [ ]
drop-append (suc n) (x ∷ xs) ys h = drop-append n xs ys (omega arith)

drop-All : (P : ℕ → Type 0) (n : ℕ) (xs : List ℕ) → All P xs → All P (drop n xs)
drop-All P zero xs h = h
drop-All P (suc n) [] h = h
drop-All P (suc n) (x ∷ xs) h = drop-All P n xs h.1

c_string-append : (s tail : List ℕ) → All IsPlain s → c_string (s ++ 0 ∷ tail) ≡ some s
unfolding c_string
c_string-append [] tail h = refl
c_string-append (b ∷ bs) tail h =
    let nonzero : (b == 0) ≡ false = ground arith in rw (nonzero, c_string-append bs tail h.1)

path-append :
    (n : ℕ) (line tail : List ℕ)
    → All IsPlain line
    → n ≤ length line
    → c_string (drop n (line ++ 0 ∷ tail)) ≡ some (drop n line)
path-append n line tail p h =
    rw (drop-append n line (0 ∷ tail) h)
      (c_string-append (drop n line) tail (drop-All IsPlain n line p))

value-append :
    (word line tail : List ℕ) (n : ℕ)
    → has_no_zero word ≡ true
    → n ≤ length line
    → starts_with word (drop n (line ++ 0 ∷ tail)) ≡ starts_with word (drop n line)
value-append word line tail n w h =
    rw (drop-append n line (0 ∷ tail) h) (starts_with-append word (drop n line) tail w)

-- A line in its buffer, with a zero behind it, sets what the line says.
handle_line-setting :
    (line tail : List ℕ) (cf : Conf)
    → IsLine line
    → handle_line (line ++ 0 ∷ tail) cf ≡ some (setting line cf)
unfolding handle_line setting
handle_line-setting line tail cf l =
    rw
      (
        starts_with-append word_default_action line tail refl,
        starts_with-append word_rules_file line tail refl,
        starts_with-append word_log_file line tail refl,
      )
      (elim (Bool-cases (starts_with word_default_action line)) [
        | inl action ↦
            rw
              (
                action,
                value-append word_accept line tail 14 refl (l.action_apart action),
                value-append word_drop line tail 14 refl (l.action_apart action),
              )
              (ground arith)
        | inr not_action ↦ elim (Bool-cases (starts_with word_rules_file line)) [
          | inl rules ↦
              rw (not_action, rules, path-append 10 line tail l.plain (l.rules_apart rules))
          | inr not_rules ↦ elim (Bool-cases (starts_with word_log_file line)) [
            | inl log ↦
                rw (not_action, not_rules, log, path-append 8 line tail l.plain (l.log_apart log))
            | inr other ↦ rw (not_action, not_rules, other)
          ]
        ]
      ])

-- Where the reading stops: at the end of the file or at an empty line.
abbrev pub Stops : List ℕ → Type 0
Stops rest = (rest ≡ []) ⊎ ((later : List ℕ) × (rest ≡ b'\n' ∷ later))

read_line-Stops :
    (buf rest : List ℕ)
    → 0 < length buf
    → Stops rest
    → (l : ReadLine) × (read_line line_size buf rest ≡ some l) × (l.count ≡ 0)
unfolding read_line
read_line-Stops buf rest k (inl e) = (record { count = 0; buf = buf; rest = [] }, rw e, refl)
read_line-Stops buf rest k (inr (later, e)) = rw e (read_line_empty line_size buf later k)

length-line_buf :
    (line buf : List ℕ)
    → length line < length buf
    → length (line ++ 0 ∷ drop (suc (length line)) buf) ≡ length buf
length-line_buf line buf h = omega (
  arith,
  length-append line (0 ∷ drop (suc (length line)) buf),
  length-drop (suc (length line)) buf,
)

-- A round goes on with the rest of the file, or ends the loop.
handle_lines_next :
    (fuel : ℕ) (buf content : List ℕ) (cf changed : Conf) (l : ReadLine)
    → read_line line_size buf content ≡ some l
    → 0 < l.count
    → handle_line l.buf cf ≡ some changed
    → handle_lines (suc fuel) buf content cf ≡ handle_lines fuel l.buf l.rest changed
unfolding handle_lines
handle_lines_next fuel buf content cf changed l e c h =
    let more : (l.count == 0) ≡ false = ground arith in rw e (rw (more, h))

handle_lines_done :
    (fuel : ℕ) (buf content : List ℕ) (cf : Conf) (l : ReadLine)
    → read_line line_size buf content ≡ some l
    → l.count ≡ 0
    → handle_lines (suc fuel) buf content cf ≡ some cf
unfolding handle_lines
handle_lines_done fuel buf content cf l e c =
    let over : (l.count == 0) ≡ true = ground arith in rw e (rw over)

handle_lines-line :
    (fuel : ℕ) (line rest buf : List ℕ) (cf : Conf)
    → IsLine line
    → length buf ≡ line_size
    → handle_lines (suc fuel) buf (line ++ b'\n' ∷ rest) cf
      ≡ handle_lines fuel (line ++ 0 ∷ drop (suc (length line)) buf) rest (setting line cf)
handle_lines-line fuel [] rest buf cf l k = absurd (omega (arith, l.some_bytes))
handle_lines-line fuel (b ∷ ys) rest buf cf l k =
    handle_lines_next fuel buf _ cf (setting (b ∷ ys) cf) _
      (read_line_lem line_size buf b ys rest l.plain (omega (arith, l.fits))
        (omega (arith, l.fits)))
      (omega arith) (handle_line-setting (b ∷ ys) (drop (suc (suc (length ys))) buf) cf l)

handle_lines-settings :
    (fuel : ℕ) (lines : List (List ℕ)) (rest buf : List ℕ) (cf : Conf)
    → All IsLine lines
    → Stops rest
    → length buf ≡ line_size
    → length lines < fuel
    → handle_lines fuel buf (text lines ++ rest) cf ≡ some (settings lines cf)
handle_lines-settings zero lines rest buf cf a s k f = elim f [ ]
handle_lines-settings (suc fuel) [] rest buf cf a s k f =
    let (l, e, c) = read_line-Stops buf rest (omega arith) s in
    handle_lines_done fuel buf rest cf l e c
handle_lines-settings (suc fuel) (line ∷ lines) rest buf cf a s k f =
    rw (append_assoc line (b'\n' ∷ text lines) rest) (
      handle_lines-line fuel line (text lines ++ rest) buf cf a.0 k
      ∙ handle_lines-settings fuel lines rest (line ++ 0 ∷ drop (suc (length line)) buf)
          (setting line cf) a.1 s (length-line_buf line buf (omega (arith, a.0.fits)) ∙ k)
          (omega arith))

length-text : (lines : List (List ℕ)) → length lines ≤ length (text lines)
length-text [] = omega arith
length-text (line ∷ lines) =
    omega (arith, length-text lines, length-append line (b'\n' ∷ text lines))

-- On a file of well-formed lines, up to the end of the file or the first empty line: the loop ends
-- without a fault, and the configuration is what the lines set, in their order, whatever stands behind.
-- A line is well-formed if it has from one byte to one less than the buffer, none of them 0, 255 or a
-- carriage return, and if there is a byte behind its keyword; it ends in a line feed.
pub handle_conf-settings :
    (lines : List (List ℕ)) (rest buf : List ℕ) (cf : Conf)
    → All IsLine lines
    → Stops rest
    → length buf ≡ line_size
    → handle_conf (some (text lines ++ rest)) buf cf ≡ some (settings lines cf)
unfolding handle_conf
handle_conf-settings lines rest buf cf a s k =
    handle_lines-settings (suc (length (text lines ++ rest))) lines rest buf cf a s k
      (omega (arith, length-text lines, length-append (text lines) rest))
