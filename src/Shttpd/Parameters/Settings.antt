-- ===== src/Shttpd/Parameters/Settings.antt =====
-- What the file of parameters sets, whatever stands in it.
use linux_program_practice.Sipfw.Proc.Cookie.{zeros}
use linux_program_practice.Shttpd.Parameters.Lines.{
  no_file, Cleared, outside, nothing, no_root, parse_line-Cleared,
}
use linux_program_practice.Shttpd.Parameters.{
  ConfOpts, para_file_parse, parse_lines, read_from, ParseEnd, conf_readline, line_length, overrun,
  ended, parse_line, para_init, para_cmd_parse, read_file,
}
use linux_program_practice.Base.{
  ℕ, zero, suc, ◌+◌, ◌≤◌, ◌<◌, ◌≡◌, refl, subst, ◌∙◌, ◌⊎◌, inl, inr, Bool, true, false, ◌||◌,
  Option, none, some, List, [], ◌∷◌, arith, ltb, ◌==◌, Bool-cases, Option-cases, length, set, sym,
  ap,
}

-- Only the root of CGI programs and the default file have changed, if at all, and then to nothing.
pub record Emptied (c d : ConfOpts) : Type 0 where
  pub cgi_root : (d.cgi_root ≡ c.cgi_root) ⊎ (d.cgi_root ≡ [])
  pub default_file : (d.default_file ≡ c.default_file) ⊎ (d.default_file ≡ [])
  pub document_root : d.document_root ≡ c.document_root
  pub config_file : d.config_file ≡ c.config_file
  pub listen_port : d.listen_port ≡ c.listen_port
  pub max_client : d.max_client ≡ c.max_client
  pub time_out : d.time_out ≡ c.time_out
  pub init_client : d.init_client ≡ c.init_client

Emptied-refl : (c : ConfOpts) → Emptied c c
Emptied-refl c = record {
  cgi_root = inl refl;
  default_file = inl refl;
  document_root = refl;
  config_file = refl;
  listen_port = refl;
  max_client = refl;
  time_out = refl;
  init_client = refl;
}

Emptied-root : (c : ConfOpts) → Emptied c (record c { cgi_root = [] })
Emptied-root c = record {
  cgi_root = inr refl;
  default_file = inl refl;
  document_root = refl;
  config_file = refl;
  listen_port = refl;
  max_client = refl;
  time_out = refl;
  init_client = refl;
}

Emptied-file : (c : ConfOpts) → Emptied c (record c { default_file = [] })
Emptied-file c = record {
  cgi_root = inl refl;
  default_file = inr refl;
  document_root = refl;
  config_file = refl;
  listen_port = refl;
  max_client = refl;
  time_out = refl;
  init_client = refl;
}

or_empty_trans : {x y z : List ℕ} → (y ≡ x) ⊎ (y ≡ []) → (z ≡ y) ⊎ (z ≡ []) → (z ≡ x) ⊎ (z ≡ [])
or_empty_trans a (inr e) = inr e
or_empty_trans (inl d) (inl e) = inl (e ∙ d)
or_empty_trans (inr d) (inl e) = inr (e ∙ d)

Emptied-trans : (c d e : ConfOpts) → Emptied c d → Emptied d e → Emptied c e
Emptied-trans c d e p q = record {
  cgi_root = or_empty_trans p.cgi_root q.cgi_root;
  default_file = or_empty_trans p.default_file q.default_file;
  document_root = q.document_root ∙ p.document_root;
  config_file = q.config_file ∙ p.config_file;
  listen_port = q.listen_port ∙ p.listen_port;
  max_client = q.max_client ∙ p.max_client;
  time_out = q.time_out ∙ p.time_out;
  init_client = q.init_client ∙ p.init_client;
}

-- Every line that is not empty takes a byte from the file.
read_from_le :
    (len i : ℕ) (begin : Bool) (buff bytes : List ℕ)
    → (length (read_from len i begin buff bytes).2 ≤ length bytes)
      × ((length (read_from len i begin buff bytes).2 < length bytes)
          ⊎ ((read_from len i begin buff bytes).0 ≡ i))
unfolding read_from
read_from_le len i begin buff [] = elim (Bool-cases (ltb i len)) [
  | inl more ↦ rw more (omega arith, inr refl)
  | inr full ↦ rw full (omega arith, inr refl)
]
read_from_le len i true buff (c ∷ cs) =
    let copied = read_from_le len (i + 1) true (set buff i c) cs in
    elim (Bool-cases (ltb i len)) [
      | inr full ↦ rw full (omega arith, inr refl)
      | inl more ↦ rw more (elim (Bool-cases (c == b'\r' || c == b'\n')) [
        | inr other ↦ rw other (omega (arith, copied.0), inl (omega (arith, copied.0)))
        | inl newline ↦ rw newline (omega arith, inl (omega arith))
      ])
    ]
read_from_le len i false buff (c ∷ cs) =
    let skipped = read_from_le len i false (set buff i c) cs in
    let copied = read_from_le len (i + 1) true (set buff i c) cs in
    elim (Bool-cases (ltb i len)) [
      | inr full ↦ rw full (omega arith, inr refl)
      | inl more ↦ rw more (elim (Bool-cases (c == b'\r' || c == b'\n')) [
        | inr other ↦ rw other (omega (arith, copied.0), inl (omega (arith, copied.0)))
        | inl newline ↦ rw newline (omega (arith, skipped.0), inl (omega (arith, skipped.0)))
      ])
    ]

-- How a file can end: outside of an array, or with nothing set but two empty texts.
pub data Read (c : ConfOpts) : ParseEnd → Type 0 where
  over : Read c overrun
  done : (d : ConfOpts) → Emptied c d → Read c (ended d)

Read-trans : (c d : ConfOpts) (e : ParseEnd) → Emptied c d → Read d e → Read c e
Read-trans c d _ p over = over
Read-trans c d _ p (done e q) = done e (Emptied-trans c d e p q)

Cleared-Emptied : (c d : ConfOpts) (o : Option ConfOpts) → Cleared c o → o ≡ some d → Emptied c d
Cleared-Emptied c d _ outside is = cc
Cleared-Emptied c d _ nothing is = let e : c ≡ d = cc in subst (Emptied c) e (Emptied-refl c)
Cleared-Emptied c d _ no_root is =
    let e : record c { cgi_root = [] } ≡ d = cc in subst (Emptied c) e (Emptied-root c)
Cleared-Emptied c d _ no_file is =
    let e : record c { default_file = [] } ≡ d = cc in subst (Emptied c) e (Emptied-file c)

module _ (strtol : List ℕ → ℕ) where
  parse_lines-Read :
      (fuel : ℕ) (bytes : List ℕ) (c : ConfOpts)
      → length bytes < fuel
      → Read c (parse_lines strtol fuel bytes c)
  unfolding parse_lines conf_readline
  parse_lines-Read zero bytes c enough = absurd (omega arith)
  parse_lines-Read (suc fuel) bytes c enough =
      let r = read_from line_length 0 false (zeros line_length) bytes in
      let (le, taken) = read_from_le line_length 0 false (zeros line_length) bytes in
      elim (Bool-cases (r.0 == 0)) [
        | inl last ↦ rw last (Read.done c (Emptied-refl c))
        | inr more ↦ rw more (elim (Option-cases (parse_line strtol r.1 c)) [
          | inl gone ↦ rw gone Read.over
          | inr (d, is) ↦ rw is (
              Read-trans c d (parse_lines strtol fuel r.2 d)
                (Cleared-Emptied c d (parse_line strtol r.1 c) (parse_line-Cleared strtol r.1 c) is)
                (parse_lines-Read fuel r.2 d (ground (arith, taken, more, enough))))
        ])
      ]

  pub para_file_parse-Read :
      (file : Option (List ℕ)) (c : ConfOpts) → Read c (para_file_parse strtol file c)
  unfolding para_file_parse
  para_file_parse-Read none c = done c (Emptied-refl c)
  para_file_parse-Read (some bytes) c = parse_lines-Read (suc (length bytes)) bytes c (omega arith)

  read_file-Read :
      (files : List ℕ → Option (List ℕ)) (d : ConfOpts) → Read d (read_file strtol files (some d))
  read_file-Read files d = elim (Bool-cases (length d.config_file == 0)) [
    | inl no_name ↦ rw no_name (done d (Emptied-refl d))
    | inr named ↦ rw named (para_file_parse-Read (files d.config_file) d)
  ]

  -- Where the command line overruns a buffer, so does Para_Init. Else Para_Init ends with an overrun,
  -- or with the parameters as the command line leaves them, except that the root of CGI programs and
  -- the default file may each have been emptied: whatever stands in the file of parameters, it sets no
  -- other parameter, and these to no other value.
  pub para_init-Read :
      (files : List ℕ → Option (List ℕ)) (os : List (ℕ × Option (List ℕ))) (c : ConfOpts)
      → ((para_cmd_parse strtol os c ≡ none) × (para_init strtol files os c ≡ overrun))
        ⊎ ((d : ConfOpts) × (para_cmd_parse strtol os c ≡ some d)
            × Read d (para_init strtol files os c))
  unfolding para_init
  para_init-Read files os c = elim (Option-cases (para_cmd_parse strtol os c)) [
    | inl gone ↦ inl (gone, ap (read_file strtol files) gone)
    | inr (d, is) ↦
        inr
          (d, is, subst (λ o. Read d (read_file strtol files o)) (sym is) (read_file-Read files d))
  ]
