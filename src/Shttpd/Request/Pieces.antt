-- ===== src/Shttpd/Request/Pieces.antt =====
-- The pieces of a request line.
use linux_program_practice.Base.Run.{ret}
use linux_program_practice.Shttpd.Request.{cut_line}
use linux_program_practice.Shttpd.Headers.{to_newline}
use linux_program_practice.Shttpd.Uri.{before_zero}
use linux_program_practice.Base.{
  ℕ, suc, ◌+◌, ◌-◌, ◌≡◌, refl, sym, ap, ◌∙◌, true, false, List, [], ◌∷◌, ◌++◌, append_assoc, arith,
  ltb, ◌==◌, length, set, take, All, length-append, get_elem?-append, set-append,
}

pub take-length : (xs : List ℕ) → take (length xs) xs ≡ xs
take-length [] = refl
take-length (x ∷ xs) = ap (◌∷◌ x) (take-length xs)

-- A text without the end of a line, and one that is only its bytes.
abbrev pub OneLine : List ℕ → Type 0
OneLine s = All (λ c. (c == b'\n') ≡ false) s

to_newline-append :
    (xs ys : List ℕ) → OneLine xs → to_newline (xs ++ ys) ≡ length xs + to_newline ys
unfolding to_newline
to_newline-append [] ys h = omega arith
to_newline-append (x ∷ xs) ys (one, h) = rw one (ap suc (to_newline-append xs ys h) ∙ omega arith)

-- The first line, with its end replaced by zeros.
pub cut_line-append :
    (pre rest : List ℕ)
    → OneLine pre
    → cut_line (length (pre ++ b'\r' ∷ b'\n' ∷ rest)) (pre ++ b'\r' ∷ b'\n' ∷ rest)
      ≡ ret (pre ++ 0 ∷ 0 ∷ rest)
unfolding to_newline
cut_line-append pre rest one =
    let buf = pre ++ b'\r' ∷ b'\n' ∷ rest in
    let size = length-append pre (b'\r' ∷ b'\n' ∷ rest) in
    let all = take-length buf in
    let nl = to_newline-append pre (b'\r' ∷ b'\n' ∷ rest) one in
    let no_zero : (length pre + 1 == 0) ≡ false = ground arith in
    let within : ltb (length pre + 1) (length buf) ≡ true = ground (arith, size) in
    let before : length pre + 1 - 1 ≡ length pre = omega arith in
    let there = get_elem?-append pre b'\r' (b'\n' ∷ rest) (length pre) refl in
    let first = set-append pre b'\r' (b'\n' ∷ rest) (length pre) 0 refl in
    let split = sym (append_assoc pre (0 ∷ []) (b'\n' ∷ rest)) in
    let longer = length-append pre (0 ∷ []) in
    let second = set-append (pre ++ 0 ∷ []) b'\n' rest (length pre + 1) 0 (omega (arith, longer)) in
    let join = append_assoc pre (0 ∷ []) (0 ∷ rest) in
    rw all (
      rw nl (
        rw no_zero (
          rw within (
            rw before (
              rw there (
                rw first (
                  ap ret
                    (ap (λ (xs : List ℕ). set xs (length pre + 1) 0) split ∙ second ∙ join))))))))

pub before_zero-append :
    (xs ys : List ℕ) → All (λ c. (c == 0) ≡ false) xs → before_zero (xs ++ 0 ∷ ys) ≡ xs
unfolding before_zero
before_zero-append [] ys h = refl
before_zero-append (x ∷ xs) ys (one, h) = rw one (ap (◌∷◌ x) (before_zero-append xs ys h))
