-- ===== src/Ping/Message.antt =====
-- The message that ping sends.
use linux_program_practice.Base.{
  ℕ, ◌+◌, ◌-◌, ◌*◌, ◌/◌, ◌%◌, ◌^◌, ◌<◌, ◌≡◌, refl, some, List, [], ◌∷◌, ◌++◌, arith, zero, suc,
}
use linux_program_practice.Ping.{icmp_cksum, icmp_pack, fold_sum, sum_words, word, pattern_from}

-- The complement of a folded sum, added to it, folds to all ones.
fold_sum_full :
    (s : ℕ)
    → s < 2 ^ 31
    → 0 < s
    → fold_sum (s + (2 ^ 16 - 1 - fold_sum s % 2 ^ 16)) % 2 ^ 16 ≡ 2 ^ 16 - 1
fold_sum_full s few some' = ground arith

sum_words_add :
    (len : ℕ) (bytes : List ℕ) (sum d s : ℕ)
    → sum_words len bytes sum ≡ some s
    → sum_words len bytes (sum + d) ≡ some (s + d)
unfolding sum_words
sum_words_add zero bytes sum d s h = ground (arith, h)
sum_words_add (suc zero) [] sum d s h = cc
sum_words_add (suc zero) (b ∷ bytes) sum d s h = ground (arith, h)
sum_words_add (suc (suc len)) [] sum d s h = cc
sum_words_add (suc (suc len)) (b ∷ []) sum d s h = cc
sum_words_add (suc (suc len)) (b ∷ c ∷ bytes) sum d s h =
    let next = sum_words_add len bytes (sum + (b + 256 * c)) d s h in
    let moved : sum + d + (b + 256 * c) ≡ sum + (b + 256 * c) + d = omega arith in rw moved next

-- The checksum of a message with a checksum of 0, and the message with it.
icmp_cksum-verifies :
    (b c n s : ℕ) (rest : List ℕ)
    → sum_words n rest (0 + (b + 256 * c) + (0 + 256 * 0)) ≡ some s
    → s < 2 ^ 31
    → 0 < s
    → let v = 2 ^ 16 - 1 - fold_sum s % 2 ^ 16 in
      (icmp_cksum (b ∷ c ∷ 0 ∷ 0 ∷ rest) (suc (suc (suc (suc n)))) ≡ some v)
      × (icmp_cksum (b ∷ c ∷ (word v ++ rest)) (suc (suc (suc (suc n)))) ≡ some 0)
unfolding icmp_cksum sum_words
icmp_cksum-verifies b c n s rest h few more =
    let v = 2 ^ 16 - 1 - fold_sum s % 2 ^ 16 in
    let read : 0 + (b + 256 * c) + (v % 256 + 256 * (v / 256 % 256))
        ≡ 0 + (b + 256 * c) + (0 + 256 * 0) + v =
      omega arith in
    let sum = sum_words_add n rest (0 + (b + 256 * c) + (0 + 256 * 0)) v s h in
    let full = fold_sum_full s few more in (rw h refl, rw read (rw sum (rw full refl)))

-- The message of ping with number `seq` and checksum `v`.
abbrev pub echo_request : (pid seq v : ℕ) → List ℕ
echo_request pid seq v =
    8 ∷ 0 ∷ (word v ++ (word (pid % 2 ^ 16) ++ (word (seq % 2 ^ 16) ++ pattern_from 0 64)))

-- icmp_pack fits its message into the buffer, and the checksum over the 64 bytes of it that are sent is
-- 0, as a receiver wants it.
pub icmp_pack-accepted :
    (pid seq : ℕ)
    → (v : ℕ) × (icmp_pack pid seq 64 ≡ some (echo_request pid seq v))
      × (icmp_cksum (echo_request pid seq v) 64 ≡ some 0)
unfolding icmp_pack sum_words
icmp_pack-accepted pid seq =
    let rest = word (pid % 2 ^ 16) ++ (word (seq % 2 ^ 16) ++ pattern_from 0 64) in
    let (made, good) = icmp_cksum-verifies 8 0 60 _ rest refl (omega arith) (omega arith) in
    (_, rw made refl, good)
