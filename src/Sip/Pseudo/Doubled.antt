-- ===== src/Sip/Pseudo/Doubled.antt =====
-- What the checksum over a pseudo header comes to.
use mathlib.Core.Option
use linux_program_practice.Base.{
  ℕ, ◌+◌, ◌*◌, ◌/◌, ◌%◌, ◌^◌, ◌<◌, ◌≡◌, List, [], ◌∷◌, ◌++◌, arith, ◌-◌, ◌↔◌, refl, sym, ◌∙◌, some,
  length, All-append,
}
use linux_program_practice.Sip.Checksum.{fold_all, htons, fold_twice, stored}
use linux_program_practice.Sip.Checksum.Sums.{
  word_sum, IsBytes, chksum_lem, word_sum-append, fold_twice_lt, word_sum_lt, fold_twice_mod,
}
use linux_program_practice.Sip.Ip.{stored32}
use linux_program_practice.Sip.Pseudo.{exchanged, pseudo_sum, chksum_pseudo}

fold_all_lem :
    (acc : ℕ) → acc < 2 ^ 32 → (fold_all 2 acc < 2 ^ 16) × (fold_all 2 acc % 65535 ≡ acc % 65535)
unfolding fold_all
fold_all_lem acc h = (ground arith, ground arith)

-- The two exchanges leave a sum of 16 bits as it is.
exchanged_same : (len acc : ℕ) → acc < 2 ^ 16 → exchanged len acc ≡ acc
exchanged_same len acc h = ground arith

-- An exchange of bytes is a product with 256, modulo 65535.
htons_mod : (x : ℕ) → x < 2 ^ 16 → htons x + 65535 * (x / 256) ≡ 256 * x
htons_mod x h = omega arith

-- The pseudo header of the standard: addresses, a zero, the protocol and the length.
abbrev pub pseudo_header : (src dest proto proto_len : ℕ) → List ℕ
pseudo_header src dest proto proto_len =
    stored32 src ++ (stored32 dest ++ (0 ∷ proto ∷ proto_len / 256 ∷ proto_len % 256 ∷ []))

pseudo_header-sum :
    (src dest proto proto_len : ℕ)
    → src < 2 ^ 32
    → dest < 2 ^ 32
    → proto < 256
    → proto_len < 2 ^ 16
    → word_sum (pseudo_header src dest proto proto_len) % 65535
      ≡ 256 * pseudo_sum src dest proto proto_len % 65535
unfolding word_sum
pseudo_header-sum src dest proto proto_len a b c d = omega arith

-- The sum of a datagram with the checksum `v` in it, where the sum was `d` with a checksum of 0, and
-- `e` is what SIP_Chksum gives for that: 2 d, modulo 65535.
doubled :
    (d f e acc g v p ps t : ℕ)
    → f < 2 ^ 16
    → f % 65535 ≡ d % 65535
    → e ≡ 2 ^ 16 - 1 - htons f
    → acc ≡ e + p
    → g < 2 ^ 16
    → g % 65535 ≡ acc % 65535
    → v ≡ 2 ^ 16 - 1 - g
    → ps % 65535 ≡ 256 * p % 65535
    → t ≡ ps + (d + htons v)
    → t % 65535 ≡ 2 * d % 65535
doubled d f e acc g v p ps t f_lt f_mod e_is acc_is g_lt g_mod v_is ps_mod t_is = omega arith

halved : (d t : ℕ) → t % 65535 ≡ 2 * d % 65535 → (t % 65535 ≡ 0) ↔ (d % 65535 ≡ 0)
halved d t h = (λ e. omega arith, λ e. omega arith)

fold_all_small : (acc : ℕ) → acc < 2 ^ 16 → fold_all 2 acc ≡ acc
unfolding fold_all
fold_all_small acc h = ground arith

pseudo_sum_lt : (src dest proto proto_len : ℕ) → pseudo_sum src dest proto proto_len < 6 * 2 ^ 16
pseudo_sum_lt src dest proto proto_len = omega arith

-- What SIP_ChksumPseudo gives for bytes with the sum `d`: the complement of `g`, the folded sum of the
-- pseudo header and of the checksum `e` of the bytes.
chksum_pseudo_lem :
    (bytes : List ℕ) (len src dest proto proto_len : ℕ)
    → IsBytes bytes
    → length bytes < 2 ^ 16
    → let e = 2 ^ 16 - 1 - htons (fold_twice (word_sum bytes)) in
      let g = fold_all 2 (e + pseudo_sum src dest proto proto_len) in
      chksum_pseudo bytes len src dest proto proto_len ≡ some (2 ^ 16 - 1 - g)
unfolding chksum_pseudo
chksum_pseudo_lem bytes len src dest proto proto_len all few =
    let e = 2 ^ 16 - 1 - htons (fold_twice (word_sum bytes)) in
    let p = pseudo_sum src dest proto proto_len in
    let whole : length bytes % 2 ^ 16 ≡ length bytes = omega arith in
    let value = chksum_lem bytes all few in
    let small : e < 2 ^ 16 = omega arith in
    let folded = fold_all_small e small in
    let kept = exchanged_same len e small in
    let bound = pseudo_sum_lt src dest proto proto_len in
    let word : (e + p) % 2 ^ 32 ≡ e + p = omega arith in
    let (g_lt, _) = fold_all_lem (e + p) (omega arith) in
    let cut : fold_all 2 (e + p) % 2 ^ 16 ≡ fold_all 2 (e + p) = omega arith in
    rw whole (rw value (rw folded (rw kept (rw word (rw cut refl)))))

-- The checksum that SIP_ChksumPseudo gives for bytes with a checksum of 0 at an even offset, written
-- into that place, makes the standard's sum over pseudo header and bytes a multiple of 65535 exactly
-- where the sum of the bytes alone was one.
pub chksum_pseudo_iff :
    (n : ℕ) (xs ys : List ℕ) (len src dest proto proto_len v : ℕ)
    → length xs ≡ 2 * n
    → IsBytes xs
    → IsBytes ys
    → length (xs ++ 0 ∷ 0 ∷ ys) < 2 ^ 16
    → src < 2 ^ 32
    → dest < 2 ^ 32
    → proto < 256
    → proto_len < 2 ^ 16
    → chksum_pseudo (xs ++ 0 ∷ 0 ∷ ys) len src dest proto proto_len ≡ some v
    → (word_sum (pseudo_header src dest proto proto_len ++ (xs ++ (stored v ++ ys))) % 65535 ≡ 0)
      ↔ (word_sum (xs ++ 0 ∷ 0 ∷ ys) % 65535 ≡ 0)
unfolding word_sum
chksum_pseudo_iff n xs ys len src dest proto proto_len v even bx by few a b c d made =
    let bytes = xs ++ 0 ∷ 0 ∷ ys in
    let all : IsBytes bytes = All-append _ xs _ bx (omega arith, (omega arith, by)) in
    let s = word_sum bytes in
    let p = pseudo_sum src dest proto proto_len in
    let header = pseudo_header src dest proto proto_len in
    let e = 2 ^ 16 - 1 - htons (fold_twice s) in
    let v_is =
      Option.some_inj.0 (sym made ∙ chksum_pseudo_lem bytes len src dest proto proto_len all few) in
    let bound = pseudo_sum_lt src dest proto proto_len in
    let (g_lt, g_mod) = fold_all_lem (e + p) (omega arith) in
    let before = word_sum-append n xs (0 ∷ 0 ∷ ys) even in
    let after = word_sum-append n xs (stored v ++ ys) even in
    let both = word_sum-append 6 header (xs ++ (stored v ++ ys)) refl in
    let sum : word_sum (header ++ (xs ++ (stored v ++ ys))) ≡ word_sum header + (s + htons v) =
      omega (arith, both, before, after) in
    halved s (word_sum (header ++ (xs ++ (stored v ++ ys)))) (
      doubled s (fold_twice s) e (e + p) (fold_all 2 (e + p)) v p (word_sum header)
        (word_sum (header ++ (xs ++ (stored v ++ ys))))
        (fold_twice_lt s (word_sum_lt bytes all few)) (fold_twice_mod s) refl refl g_lt g_mod v_is
        (pseudo_header-sum src dest proto proto_len a b c d) sum)
