-- ===== src/Shttpd/Headers/Names.antt =====
-- The names of headers at the beginning of a line, and slices of a line.
use linux_program_practice.Shttpd.Headers.{
  lower, to_newline, starts_with_name, HttpHeader, find_header, http_headers, vec_len,
}
use linux_program_practice.Base.{
  ℕ, ◌≤◌, ◌≡◌, ◌≢◌, inl, inr, true, false, List, [], ◌∷◌, arith, ◌==◌, ==_iff, &&_iff, Bool-cases,
  length, take, All, zero, suc, ◌+◌, ◌-◌, ◌<◌, refl, sym, ap, subst, ◌∙◌, Bool, not, ◌&&◌, none,
  some, ltb, ltb→lt, get_elem?, drop,
}

-- No byte of the slice is the end of a line.
abbrev pub OnOneLine : List ℕ → Type 0
OnOneLine s = All (λ c. c ≢ b'\n') s

-- A name has no end of line, and the length that the table says.
abbrev pub no_newline : List ℕ → Bool
no_newline [] = true
no_newline (c ∷ cs) = not (c == b'\n') && no_newline cs

abbrev pub is_sound : HttpHeader → Bool
is_sound h = no_newline h.name && length h.name == h.len

pub http_headers_sound : All (λ h. is_sound h ≡ true) http_headers
http_headers_sound = (
  refl,
  (refl, (refl, (refl, (refl, (refl, (refl, (refl, (refl, (refl, (refl, (refl, tt))))))))))),
)

lower_newline : (x c : ℕ) → lower c ≡ lower x → x ≢ b'\n' → c ≢ b'\n'
lower_newline x c same other = grind arith

pub before-OnOneLine : (s : List ℕ) → OnOneLine (take (to_newline s) s)
unfolding to_newline
before-OnOneLine [] = tt
before-OnOneLine (c ∷ cs) = elim (Bool-cases (c == b'\n')) [
  | inl is ↦ rw is tt
  | inr other ↦ rw other ((λ h. ground (arith, other, h)), before-OnOneLine cs)
]

pub to_newline_le : (s : List ℕ) → to_newline s ≤ length s
unfolding to_newline
to_newline_le [] = omega arith
to_newline_le (c ∷ cs) = let rest = to_newline_le cs in ground arith

-- A name without an end of line lies within the line.
pub starts_with_name_le :
    (xs s : List ℕ) → no_newline xs ≡ true → starts_with_name xs s ≡ true → length xs ≤ to_newline s
unfolding starts_with_name to_newline
starts_with_name_le [] s on is = omega arith
starts_with_name_le (x ∷ xs) [] on is = cc
starts_with_name_le (x ∷ xs) (c ∷ cs) on is =
    let (same, rest) = (&&_iff (lower c == lower x) (starts_with_name xs cs)).0 is in
    let (ne, on') = (&&_iff (not (x == b'\n')) (no_newline xs)).0 on in
    let apart : x ≢ b'\n' = λ h. ground (arith, ne, h) in
    let other = lower_newline x c ((==_iff (lower c) (lower x)).0 same) apart in
    let le = starts_with_name_le xs cs on' rest in
    let no : (c == b'\n') ≡ false = ground (arith, other) in rw no (omega arith)

-- The header that is found is one of the table whose name stands here.
pub find_header-Sound :
    (hs : List HttpHeader) (s : List ℕ) (h : HttpHeader)
    → All (λ h. is_sound h ≡ true) hs
    → find_header hs s ≡ some h
    → (is_sound h ≡ true) × (h.len < length s) × (starts_with_name h.name s ≡ true)
unfolding find_header
find_header-Sound [] s h sound is = cc
find_header-Sound (g ∷ hs) s h (one, sound) is =
    let test = ltb g.len (length s) && starts_with_name g.name s in
    elim (Bool-cases test) [
      | inl holds ↦
          let (lt, named) = (&&_iff (ltb g.len (length s)) (starts_with_name g.name s)).0 holds in
          let there : find_header (g ∷ hs) s ≡ some g = rw holds refl in
          let e : some g ≡ some h = sym there ∙ is in
          let here : g ≡ h = cc in
          subst (λ k. (is_sound k ≡ true) × (k.len < length s) × (starts_with_name k.name s ≡ true))
            here (one, ltb→lt g.len (length s) lt, named)
      | inr fails ↦
          let there : find_header (g ∷ hs) s ≡ find_header hs s = rw fails refl in
          find_header-Sound hs s h sound (sym there ∙ is)
    ]

OnOneLine-take : (l n : ℕ) (s : List ℕ) → l ≤ n → OnOneLine (take n s) → OnOneLine (take l s)
OnOneLine-take zero n s le on = tt
OnOneLine-take (suc l) n [] le on = tt
OnOneLine-take (suc l) zero (c ∷ cs) le on = absurd (omega (arith, le))
OnOneLine-take (suc l) (suc n) (c ∷ cs) le (ne, on) =
    (ne, OnOneLine-take l n cs (omega (arith, le)) on)

pub OnOneLine-slice :
    (k l n : ℕ) (s : List ℕ) → k + l ≤ n → OnOneLine (take n s) → OnOneLine (take l (drop k s))
OnOneLine-slice zero l n s le on = OnOneLine-take l n s (omega (arith, le)) on
OnOneLine-slice (suc k) zero n s le on = tt
OnOneLine-slice (suc k) (suc l) n [] le on = tt
OnOneLine-slice (suc k) (suc l) zero (c ∷ cs) le on = absurd (omega (arith, le))
OnOneLine-slice (suc k) (suc l) (suc n) (c ∷ cs) le (ne, on) =
    OnOneLine-slice k (suc l) n cs (omega (arith, le)) on

drop-nil : (n : ℕ) → drop {A = ℕ} n [] ≡ []
drop-nil zero = refl
drop-nil (suc n) = refl

suc_add : (n k : ℕ) → suc (n + k) ≡ suc n + k
suc_add n k = omega arith

pub drop-drop : (k n : ℕ) (s : List ℕ) → drop k (drop n s) ≡ drop (n + k) s
drop-drop k zero s = ap (λ n. drop n s) (omega arith)
drop-drop k (suc n) [] = drop-nil k ∙ sym (drop-nil (suc n + k))
drop-drop k (suc n) (c ∷ cs) = drop-drop k n cs ∙ ap (λ m. drop m (c ∷ cs)) (suc_add n k)

pub vec_len_le : (s : List ℕ) (n : ℕ) → vec_len s n ≤ n
vec_len_le s n =
    let b = ltb 0 n && elim (get_elem? s (n - 1)) [ none ↦ false | some c ↦ c == b'\r' ] in
    elim (Bool-cases b) [ inl holds ↦ rw holds (omega arith) | inr fails ↦ rw fails (omega arith) ]
