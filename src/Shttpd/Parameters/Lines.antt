-- ===== src/Shttpd/Parameters/Lines.antt =====
-- What a line of the file can set: its value is read from the zero behind its name on.
use linux_program_practice.Sipfw.ConfFile.{starts_with}
use linux_program_practice.Shttpd.Parameters.{
  ConfOpts, parse_line, parse_value, scan_while, set_named, is_space, name_char, value_char,
}
use linux_program_practice.Shttpd.Uri.{before_zero}
use linux_program_practice.Base.{
  ℕ, zero, suc, ◌+◌, ◌≡◌, refl, sym, ap, subst, ◌∙◌, inl, inr, Bool, true, false, Option, none,
  some, List, [], ◌∷◌, arith, ◌==◌, ==_iff, Bool-cases, Option-cases, get_elem?, set, drop,
  get_elem?-set_self, get_elem?-set_ne, codes,
}

-- A zero in the buffer ends a string and the blanks in front of it, and stays when another is written.
pub scan_while-zero :
    (xs : List ℕ) (i : ℕ) → get_elem? xs i ≡ some 0 → scan_while is_space (drop i xs) ≡ some 0
unfolding scan_while
scan_while-zero [] i h = cc
scan_while-zero (x ∷ xs) zero h = let e : x ≡ 0 = cc in rw e refl
scan_while-zero (x ∷ xs) (suc i) h = scan_while-zero xs i h

before_zero-zero : (xs : List ℕ) (i : ℕ) → get_elem? xs i ≡ some 0 → before_zero (drop i xs) ≡ []
unfolding before_zero
before_zero-zero [] i h = cc
before_zero-zero (x ∷ xs) zero h = let e : x ≡ 0 = cc in rw e refl
before_zero-zero (x ∷ xs) (suc i) h = before_zero-zero xs i h

set-zero : (xs : List ℕ) (i j : ℕ) → get_elem? xs i ≡ some 0 → get_elem? (set xs j 0) i ≡ some 0
set-zero xs i j h = elim (Bool-cases (j == i)) [
  | inl same ↦
      let e = (==_iff j i).0 same in
      subst (λ k. get_elem? (set xs k 0) i ≡ some 0) (sym e) (get_elem?-set_self xs i 0 0 h)
  | inr other ↦ get_elem?-set_ne xs j i 0 (λ e. ground (arith, other, e)) ∙ h
]

-- Outside of the buffer nothing can be read.
scan_while-outside :
    (p : ℕ → Bool) (xs : List ℕ) (i : ℕ) → get_elem? xs i ≡ none → scan_while p (drop i xs) ≡ none
unfolding scan_while
scan_while-outside p [] zero h = refl
scan_while-outside p [] (suc i) h = refl
scan_while-outside p (x ∷ xs) zero h = cc
scan_while-outside p (x ∷ xs) (suc i) h = scan_while-outside p xs i h

get_elem?-set-none :
    (xs : List ℕ) (i v : ℕ) → get_elem? xs i ≡ none → get_elem? (set xs i v) i ≡ none
get_elem?-set-none [] i v h = refl
get_elem?-set-none (x ∷ xs) zero v h = cc
get_elem?-set-none (x ∷ xs) (suc i) v h = get_elem?-set-none xs i v h

-- The three ends of a line: outside of an array, nothing set, or one of two texts emptied.
pub data Cleared (c : ConfOpts) : Option ConfOpts → Type 0 where
  outside : Cleared c none
  nothing : Cleared c (some c)
  no_root : Cleared c (some (record c { cgi_root = [] }))
  no_file : Cleared c (some (record c { default_file = [] }))

-- A name that begins with one of the words does not begin with the next.
not_both :
    (name : List ℕ)
    → starts_with (codes "CGIRoot") name ≡ true
    → starts_with (codes "DefaultFile") name ≡ false
unfolding starts_with
not_both [] h = cc
not_both (b ∷ bs) h = elim (Bool-cases (b == b'D')) [
  | inl is ↦ let other : (b == b'C') ≡ false = ground (arith, is) in cc (rw other at h)
  | inr other ↦ rw other refl
]

module _ (strtol : List ℕ → ℕ) where
  set_named-Cleared : (name : List ℕ) (c : ConfOpts) → Cleared c (set_named strtol name [] c)
  unfolding set_named
  set_named-Cleared name c = elim (Bool-cases (starts_with (codes "CGIRoot") name)) [
    | inr other ↦ rw other Cleared.no_root
    | inl is ↦ rw is (rw (not_both name is) Cleared.no_file)
  ]

  parse_value-Cleared :
      (at stop : ℕ) (line : List ℕ) (c : ConfOpts) → Cleared c (parse_value strtol at stop line c)
  unfolding parse_value
  parse_value-Cleared at stop line c =
      let named = set line stop 0 in
      elim (Option-cases (get_elem? line stop)) [
        | inl gone ↦
            rw (scan_while-outside is_space named stop (get_elem?-set-none line stop 0 gone))
              Cleared.outside
        | inr (b, here) ↦
            let zero_here = get_elem?-set_self line stop 0 b here in
            rw (scan_while-zero named stop zero_here)
              (elim (Option-cases (scan_while value_char (drop (stop + 0) named))) [
                | inl gone ↦ rw gone Cleared.outside
                | inr (k, scanned) ↦
                    let same : stop + 0 ≡ stop = omega arith in
                    let empty = before_zero-zero (set named (stop + 0 + k) 0) (stop + 0) (
                      set-zero named (stop + 0) (stop + 0 + k)
                        (ap (get_elem? named) same ∙ zero_here)) in
                    rw scanned (
                      rw empty
                        (set_named-Cleared (before_zero (drop at (set named (stop + 0 + k) 0))) c))
              ])
      ]

  pub parse_line-Cleared : (line : List ℕ) (c : ConfOpts) → Cleared c (parse_line strtol line c)
  unfolding parse_line
  parse_line-Cleared line c = elim (Option-cases (scan_while is_space line)) [
    | inl gone ↦ rw gone Cleared.outside
    | inr (at, blanks) ↦ rw blanks (elim (Option-cases (get_elem? line at)) [
      | inl gone ↦ rw gone Cleared.outside
      | inr (first, here) ↦ rw here (elim (Bool-cases (first == b'#')) [
        | inl comment ↦ rw comment Cleared.nothing
        | inr other ↦ rw other (elim (Option-cases (scan_while name_char (drop at line))) [
          | inl gone ↦ rw gone Cleared.outside
          | inr (n, scanned) ↦ rw scanned (parse_value-Cleared at (at + n) line c)
        ])
      ])
    ])
  ]
