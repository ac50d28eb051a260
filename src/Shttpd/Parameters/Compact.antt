-- ===== src/Shttpd/Parameters/Compact.antt =====
-- A line without blanks, such as CGIRoot=/www, is read beyond its buffer.
use linux_program_practice.Sipfw.Proc.Cookie.{zeros}
use linux_program_practice.Shttpd.Parameters.Lines.{scan_while-zero}
use linux_program_practice.Shttpd.Parameters.{
  line_length, ConfOpts, overrun, ConfOpts, read_from, scan_while, name_char, parse_line,
  value_char, is_space, parse_value, para_file_parse, parse_lines, conf_readline,
}
use linux_program_practice.Base.{
  ℕ, zero, suc, ◌+◌, ◌-◌, ◌<◌, ◌≡◌, refl, sym, ◌∙◌, Bool, true, false, ◌||◌, none, some, List, [],
  ◌∷◌, append_assoc, arith, ltb, ◌==◌, length, All, length-append, set-append, ◌≢◌, All-append,
  drop-append, ◌++◌, get_elem?-append,
}

-- A loop over bytes that all pass its test ends at the first that does not, or not at all.
scan_while-All : (p : ℕ → Bool) (xs : List ℕ) → All (λ x. p x ≡ true) xs → scan_while p xs ≡ none
unfolding scan_while
scan_while-All p [] h = refl
scan_while-All p (x ∷ xs) (one, h) = rw one (rw (scan_while-All p xs h) refl)

pub scan_while-append :
    (p : ℕ → Bool) (xs : List ℕ) (y : ℕ) (ys : List ℕ)
    → All (λ x. p x ≡ true) xs
    → p y ≡ false
    → scan_while p (xs ++ y ∷ ys) ≡ some (length xs)
unfolding scan_while
scan_while-append p [] y ys h stop = rw stop refl
scan_while-append p (x ∷ xs) y ys (one, h) stop =
    rw one (rw (scan_while-append p xs y ys h stop) refl)

-- Bytes that end no line.
abbrev pub Inline : List ℕ → Type 0
Inline l = All (λ c. (c == b'\r' || c == b'\n') ≡ false) l

append-step : (pre : List ℕ) (c m : ℕ) → (pre ++ c ∷ []) ++ zeros m ≡ pre ++ c ∷ zeros m
append-step pre c m = append_assoc pre (c ∷ []) (zeros m)

-- What is read of a line, behind the bytes that have been read of it.
read_from-line :
    (len m : ℕ) (pre l rest : List ℕ)
    → length pre + m ≡ len
    → length l < m
    → Inline l
    → read_from len (length pre) true (pre ++ zeros m) (l ++ b'\n' ∷ rest)
      ≡ (length pre + length l, pre ++ (l ++ zeros (m - length l)), rest)
unfolding read_from
read_from-line len zero pre l rest size lt in_line = absurd (omega arith)
read_from-line len (suc m) pre [] rest size lt in_line =
    let more : ltb (length pre) len ≡ true = ground arith in
    let once = set-append pre 0 (zeros m) (length pre) b'\n' refl in
    let twice = set-append pre b'\n' (zeros m) (length pre) 0 refl in
    let sum : length pre + 0 ≡ length pre = omega arith in
    let left : suc m - 0 ≡ suc m = omega arith in
    rw more (rw once (rw twice (rw sum (rw left refl))))
read_from-line len (suc m) pre (c ∷ cs) rest size lt (one, in_line) =
    let more : ltb (length pre) len ≡ true = ground arith in
    let once = set-append pre 0 (zeros m) (length pre) c refl ∙ sym (append-step pre c m) in
    let longer : length (pre ++ c ∷ []) ≡ length pre + 1 =
      omega (arith, length-append pre (c ∷ [])) in
    let there =
      read_from-line len m (pre ++ c ∷ []) cs rest (omega (arith, longer)) (omega arith) in_line in
    let sum : length (pre ++ c ∷ []) + length cs ≡ length pre + suc (length cs) =
      omega (arith, longer) in
    let left : suc m - suc (length cs) ≡ m - length cs = omega arith in
    let text = append_assoc pre (c ∷ []) (cs ++ zeros (m - length cs)) in
    rw more (rw one (rw once (rw (← longer) (there ∙ rw sum (rw left (rw text refl))))))

conf_readline-line :
    (b : ℕ) (t rest : List ℕ)
    → Inline (b ∷ t)
    → length t < 255
    → conf_readline line_length (b ∷ (t ++ b'\n' ∷ rest))
      ≡ (1 + length t, b ∷ (t ++ zeros (255 - length t)), rest)
unfolding conf_readline read_from
conf_readline-line b t rest (one, in_line) lt =
    rw one (read_from-line line_length 255 (b ∷ []) t rest (omega arith) lt in_line)

-- A byte of a name, and one of a text without blanks and zeros.
abbrev pub NameByte : ℕ → Type 0
NameByte c = name_char c ≡ true

abbrev pub ValueByte : ℕ → Type 0
ValueByte c = value_char c ≡ true

name-Inline : (l : List ℕ) → All NameByte l → Inline l
name-Inline [] h = tt
name-Inline (c ∷ cs) (one, h) = (ground (arith, one), name-Inline cs h)

value-Inline : (l : List ℕ) → All ValueByte l → Inline l
value-Inline [] h = tt
value-Inline (c ∷ cs) (one, h) = (ground (arith, one), value-Inline cs h)

zeros-value : (m : ℕ) → All ValueByte (zeros m)
zeros-value zero = tt
zeros-value (suc m) = (refl, zeros-value m)

name_char-space : (c : ℕ) → name_char c ≡ true → is_space c ≡ false
name_char-space c h = ground (arith, h)

parse_value-endless :
    (strtol : List ℕ → ℕ) (at stop : ℕ) (xs : List ℕ) (y : ℕ) (tail : List ℕ) (c : ConfOpts)
    → stop ≡ length xs
    → All ValueByte tail
    → parse_value strtol at stop (xs ++ y ∷ tail) c ≡ none
unfolding parse_value
parse_value-endless strtol at stop xs y tail c e valued =
    let cut = set-append xs y tail stop 0 e in
    let blanks = scan_while-zero (xs ++ 0 ∷ tail) stop (get_elem?-append xs 0 tail stop e) in
    let behind = drop-append (stop + 0) xs (0 ∷ tail) (omega arith) in
    let endless = scan_while-All value_char (0 ∷ tail) (refl, valued) in
    rw cut (rw blanks (rw behind (rw endless refl)))

module _ (strtol : List ℕ → ℕ) (b : ℕ) (name value : List ℕ) (named : All NameByte (b ∷ name))
    (no_comment : b ≢ b'#') (valued : All ValueByte value)
    (short : length name + length value + 2 < 256) where
  compact-Inline : Inline (b ∷ (name ++ b'=' ∷ value))
  compact-Inline =
      All-append (λ c. (c == b'\r' || c == b'\n') ≡ false) (b ∷ name) (b'=' ∷ value)
        (name-Inline (b ∷ name) named) (refl, value-Inline value valued)

  parse_line-compact :
      (m : ℕ) (c : ConfOpts) → parse_line strtol ((b ∷ name) ++ b'=' ∷ (value ++ zeros m)) c ≡ none
  unfolding parse_line scan_while
  parse_line-compact m c =
      let tail = value ++ zeros m in
      let start = name_char-space b named.0 in
      let other : (b == b'#') ≡ false = ground (arith, no_comment) in
      let scanned = scan_while-append name_char name b'=' tail named.1 refl in
      let first = named.0 in
      let valued' = All-append ValueByte value (zeros m) valued (zeros-value m) in
      rw start (
        rw other (
          rw first (
            rw scanned (
              parse_value-endless strtol 0 (0 + suc (length name)) (b ∷ name) b'=' tail c
                (omega arith) valued'))))

  -- A file whose first line has a name, an equals sign and a value with no blank between them, of
  -- fewer than 256 bytes, and that is no comment: reading it leaves the buffer of the line.
  pub para_file_parse-compact :
      (rest : List ℕ) (c : ConfOpts)
      → para_file_parse strtol (some (b ∷ ((name ++ b'=' ∷ value) ++ b'\n' ∷ rest))) c ≡ overrun
  unfolding para_file_parse parse_lines
  para_file_parse-compact rest c =
      let t = name ++ b'=' ∷ value in
      let size = length-append name (b'=' ∷ value) in
      let m = 255 - length t in
      let read = conf_readline-line b t rest compact-Inline (omega (arith, size)) in
      let line = append_assoc name (b'=' ∷ value) (zeros m) in
      let some_bytes : (1 + length t == 0) ≡ false = ground arith in
      rw read (rw line (rw (parse_line-compact m c) (rw some_bytes refl)))
