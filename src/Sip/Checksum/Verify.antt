-- ===== src/Sip/Checksum/Verify.antt =====
-- What the checksum is for: data with their checksum in them are recognised.
use linux_program_practice.Base.{
  ℕ, ◌+◌, ◌-◌, ◌*◌, ◌/◌, ◌%◌, ◌^◌, ◌<◌, ◌≡◌, sym, ap, ◌∙◌, ◌≢◌, ◌↔◌, some, List, ◌∷◌, ◌++◌, arith,
  length, length-append, All-append,
}
use linux_program_practice.Sip.Checksum.{htons, chksum, stored, fold_twice}
use linux_program_practice.Sip.Checksum.Sums.{
  word_sum, word_sum-append, IsBytes, fold_twice_lt, fold_twice_mod, fold_twice_zero, word_sum_lt,
  chksum_lem,
}

some_injective : {a b : ℕ} → some a ≡ some b → a ≡ b
some_injective e = cc

-- Fewer than 2^16 bytes are accepted, with a checksum of 0, exactly where the sum of their 16-bit
-- words is a multiple of 65535 other than 0.
pub chksum_zero_iff :
    (bytes : List ℕ)
    → IsBytes bytes
    → length bytes < 2 ^ 16
    → (chksum bytes (length bytes) ≡ some 0) ↔ ((word_sum bytes % 65535 ≡ 0) × (word_sum bytes ≢ 0))
chksum_zero_iff bytes all few =
    let s = word_sum bytes in
    let lt = fold_twice_lt s (word_sum_lt bytes all few) in
    let same = fold_twice_mod s in
    let zero_iff = fold_twice_zero s in
    let value = chksum_lem bytes all few in
    (
      λ e. accepted s (fold_twice s) lt same zero_iff (some_injective (sym value ∙ e)),
      λ (m, n). value ∙ ap some (complement s (fold_twice s) lt same zero_iff m n),
    )
  where
    accepted :
        (s f : ℕ)
        → f < 2 ^ 16
        → f % 65535 ≡ s % 65535
        → (f ≡ 0) ↔ (s ≡ 0)
        → 2 ^ 16 - 1 - htons f ≡ 0
        → (s % 65535 ≡ 0) × (s ≢ 0)
    accepted s f lt same z e =
        let full : f ≡ 65535 = omega arith in (omega arith, λ q. ground (arith, full, z.1 q))

    complement :
        (s f : ℕ)
        → f < 2 ^ 16
        → f % 65535 ≡ s % 65535
        → (f ≡ 0) ↔ (s ≡ 0)
        → s % 65535 ≡ 0
        → s ≢ 0
        → 2 ^ 16 - 1 - htons f ≡ 0
    complement s f lt same z m n = let full : f ≡ 65535 = ground (arith, z.0) in omega arith

-- Where the checksum field is a 16-bit word of the data at an even offset: the checksum of the data
-- with the field 0, written into the field, makes the checksum of the data 0.
pub chksum-stored :
    (n : ℕ) (xs ys : List ℕ) (v : ℕ)
    → length xs ≡ 2 * n
    → IsBytes xs
    → IsBytes ys
    → length (xs ++ 0 ∷ 0 ∷ ys) < 2 ^ 16
    → chksum (xs ++ 0 ∷ 0 ∷ ys) (length (xs ++ 0 ∷ 0 ∷ ys)) ≡ some v
    → chksum (xs ++ (stored v ++ ys)) (length (xs ++ (stored v ++ ys))) ≡ some 0
unfolding word_sum
chksum-stored n xs ys v even bx by few e =
    let zeros : IsBytes (xs ++ 0 ∷ 0 ∷ ys) =
      All-append _ xs _ bx (omega arith, (omega arith, by)) in
    let filled : IsBytes (xs ++ (stored v ++ ys)) =
      All-append _ xs _ bx (omega arith, (omega arith, by)) in
    let short : length (xs ++ (stored v ++ ys)) < 2 ^ 16 =
      omega (arith, length-append xs (0 ∷ 0 ∷ ys), length-append xs (stored v ++ ys)) in
    let s = word_sum (xs ++ 0 ∷ 0 ∷ ys) in
    let before = word_sum-append n xs (0 ∷ 0 ∷ ys) even in
    let after = word_sum-append n xs (stored v ++ ys) even in
    let value = some_injective (sym (chksum_lem (xs ++ 0 ∷ 0 ∷ ys) zeros few) ∙ e) in
    (chksum_zero_iff (xs ++ (stored v ++ ys)) filled short).1 (
      added s (fold_twice s) (word_sum xs) (word_sum ys) v (word_sum (xs ++ (stored v ++ ys)))
        (fold_twice_lt s (word_sum_lt _ zeros few)) (fold_twice_mod s) (fold_twice_zero s) value
        before after)
  where
    added :
        (s f a b v t : ℕ)
        → f < 2 ^ 16
        → f % 65535 ≡ s % 65535
        → (f ≡ 0) ↔ (s ≡ 0)
        → 2 ^ 16 - 1 - htons f ≡ v
        → s ≡ a + (0 * 256 + 0 + b)
        → t ≡ a + (v % 256 * 256 + v / 256 % 256 + b)
        → (t % 65535 ≡ 0) × (t ≢ 0)
    added s f a b v t lt same z value before after =
        let swapped : v % 256 * 256 + v / 256 % 256 ≡ 65535 - f = omega arith in
        (omega arith, λ e. ground (arith, z.1))
