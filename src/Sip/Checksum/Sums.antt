-- ===== src/Sip/Checksum/Sums.antt =====
-- The sum that the checksum folds.
use linux_program_practice.Base.{
  ℕ, zero, suc, ◌+◌, ◌-◌, ◌*◌, ◌/◌, ◌%◌, ◌^◌, ◌≤◌, ◌<◌, ◌≡◌, ap, ◌∙◌, ◌↔◌, some, List, [], ◌∷◌,
  ◌++◌, arith, length, All, refl,
}
use mathlib.Core.Option
use linux_program_practice.Sip.Checksum.{
  add_octets, fold_once, fold_twice, htons, chksum, chksum_standard, fold_all,
}

-- The sum of the 16-bit words, the first byte the upper; a last odd byte is the upper of a word.
unfoldable pub word_sum : List ℕ → ℕ
word_sum [] = 0
word_sum (b ∷ []) = b * 256
word_sum (b ∷ c ∷ bytes) = b * 256 + c + word_sum bytes

abbrev pub IsBytes : List ℕ → Type 0
IsBytes bytes = All (λ b. b < 256) bytes

-- A number of words, the last of them perhaps of one byte.
words : List ℕ → ℕ
words bytes = (length bytes + 1) / 2

word_sum_le : (bytes : List ℕ) → IsBytes bytes → word_sum bytes ≤ words bytes * 65535
unfolding word_sum words
word_sum_le [] h = omega arith
word_sum_le (b ∷ []) h = omega (arith, h.0)
word_sum_le (b ∷ c ∷ bytes) h = omega (arith, h.0, h.1.0, word_sum_le bytes h.1.1)

add_octets_lem :
    (bytes : List ℕ) (acc : ℕ)
    → acc + word_sum bytes < 2 ^ 32
    → add_octets (length bytes) acc bytes ≡ some (acc + word_sum bytes)
unfolding add_octets word_sum
add_octets_lem [] acc h = ap some (omega arith)
add_octets_lem (b ∷ []) acc h = ap some (omega arith)
add_octets_lem (b ∷ c ∷ bytes) acc h =
    let step : (acc + (b * 256 + c)) % 2 ^ 32 ≡ acc + (b * 256 + c) = omega arith in
    rw step (add_octets_lem bytes (acc + (b * 256 + c)) (omega arith) ∙ ap some (omega arith))

pub word_sum-append :
    (n : ℕ) (xs ys : List ℕ) → length xs ≡ 2 * n → word_sum (xs ++ ys) ≡ word_sum xs + word_sum ys
unfolding word_sum
word_sum-append zero [] ys h = omega arith
word_sum-append zero (x ∷ xs) ys h = absurd (omega arith)
word_sum-append (suc n) [] ys h = absurd (omega arith)
word_sum-append (suc n) (x ∷ []) ys h = absurd (omega arith)
word_sum-append (suc n) (x ∷ y ∷ xs) ys h = omega (arith, word_sum-append n xs ys (omega arith))

-- Two folds bring a sum of 32 bits to 16, and keep it modulo 65535 and whether it is 0.
pub fold_once_lem :
    (acc : ℕ) → (fold_once acc % 65535 ≡ acc % 65535) × ((fold_once acc ≡ 0) ↔ (acc ≡ 0))
fold_once_lem acc = (omega arith, (λ e. omega arith, λ e. omega arith))

pub fold_twice_lt : (acc : ℕ) → acc < 2 ^ 32 → fold_twice acc < 2 ^ 16
fold_twice_lt acc h = ground arith

pub fold_twice_mod : (acc : ℕ) → fold_twice acc % 65535 ≡ acc % 65535
fold_twice_mod acc = ground (arith, fold_once_lem acc, fold_once_lem (fold_once acc))

pub fold_twice_zero : (acc : ℕ) → (fold_twice acc ≡ 0) ↔ (acc ≡ 0)
fold_twice_zero acc = ground (arith, fold_once_lem acc, fold_once_lem (fold_once acc))

pub word_sum_lt : (bytes : List ℕ) → IsBytes bytes → length bytes < 2 ^ 16 → word_sum bytes < 2 ^ 32
unfolding words
word_sum_lt bytes all few = omega (arith, word_sum_le bytes all)

-- The checksum of fewer than 2^16 bytes: the complement of the folded sum, its bytes exchanged.
pub chksum_lem :
    (bytes : List ℕ)
    → IsBytes bytes
    → length bytes < 2 ^ 16
    → chksum bytes (length bytes) ≡ some (2 ^ 16 - 1 - htons (fold_twice (word_sum bytes)))
unfolding chksum chksum_standard fold_all
chksum_lem bytes all few =
    let small = word_sum_lt bytes all few in
    let folded = fold_twice_lt (word_sum bytes) small in
    rw (add_octets_lem bytes 0 (omega arith)) (ground arith)

add_octets-prefix :
    (xs ys : List ℕ) (acc : ℕ)
    → add_octets (length xs) acc (xs ++ ys) ≡ add_octets (length xs) acc xs
unfolding add_octets
add_octets-prefix [] ys acc = refl
add_octets-prefix (b ∷ []) ys acc = refl
add_octets-prefix (b ∷ c ∷ xs) ys acc = add_octets-prefix xs ys ((acc + (b * 256 + c)) % 2 ^ 32)

-- What lies behind the bytes makes no difference.
pub chksum-prefix : (xs ys : List ℕ) → chksum (xs ++ ys) (length xs) ≡ chksum xs (length xs)
unfolding chksum chksum_standard
chksum-prefix xs ys = rw (add_octets-prefix xs ys 0) refl

add_octets-returns :
    (len acc : ℕ) (bytes : List ℕ)
    → len ≤ length bytes
    → (v : ℕ) × (add_octets len acc bytes ≡ some v)
unfolding add_octets
add_octets-returns zero acc bytes h = (acc, refl)
add_octets-returns (suc zero) acc [] h = absurd (omega arith)
add_octets-returns (suc zero) acc (b ∷ bytes) h = (_, refl)
add_octets-returns (suc (suc len)) acc [] h = absurd (omega arith)
add_octets-returns (suc (suc len)) acc (b ∷ []) h = absurd (omega arith)
add_octets-returns (suc (suc len)) acc (b ∷ c ∷ bytes) h =
    add_octets-returns len ((acc + (b * 256 + c)) % 2 ^ 32) bytes (omega arith)

-- The checksum of bytes that are there is computed.
pub chksum-returns :
    (bytes : List ℕ) (len : ℕ) → len ≤ length bytes → (v : ℕ) × (chksum bytes len ≡ some v)
unfolding chksum chksum_standard
chksum-returns bytes len h =
    let (acc, e) = add_octets-returns len 0 bytes h in
    (
      _,
      ap
          (λ o.
            Option.map (λ v. 2 ^ 16 - 1 - fold_all 2 v % 2 ^ 16)
              (Option.map (λ a. htons (fold_twice a % 2 ^ 16)) o))
          e,
    )
