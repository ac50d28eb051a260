-- ===== src/Sip/Icmp/Echo.antt =====
-- The reply to an echo request.
use linux_program_practice.Base.{
  ℕ, ◌+◌, ◌*◌, ◌%◌, ◌^◌, ◌<◌, ◌≡◌, refl, sym, subst, ◌≢◌, some, List, ◌∷◌, ◌++◌, arith, length,
}
use linux_program_practice.Sip.Checksum.{chksum, htons, stored}
use linux_program_practice.Sip.Checksum.Sums.{IsBytes, word_sum}
use linux_program_practice.Sip.Checksum.Verify.{chksum_zero_iff}
use linux_program_practice.Sip.Icmp.{echo_reply, echo_checksum}
use linux_program_practice.Sip.Ip.{u16_at}

-- Adding 8 to the stored checksum adds it to the word that it stands for, modulo 65535.
echo_checksum_lem :
    (c0 c1 : ℕ)
    → c0 < 256
    → c1 < 256
    → (htons (echo_checksum (u16_at c0 c1)) % 65535 ≡ (c0 * 256 + c1 + 2048) % 65535)
      × (echo_checksum (u16_at c0 c1) < 2 ^ 16)
echo_checksum_lem c0 c1 h k = ground arith

-- An echo request with a correct checksum is answered by a message with a correct checksum, if its
-- code or a word behind its checksum is not 0.
pub echo_reply-accepted :
    (code c0 c1 : ℕ) (rest reply : List ℕ)
    → IsBytes (8 ∷ code ∷ c0 ∷ c1 ∷ rest)
    → length rest + 4 < 2 ^ 16
    → 0 < code + word_sum rest
    → chksum (8 ∷ code ∷ c0 ∷ c1 ∷ rest) (length rest + 4) ≡ some 0
    → echo_reply (8 ∷ code ∷ c0 ∷ c1 ∷ rest) ≡ some reply
    → chksum reply (length rest + 4) ≡ some 0
unfolding echo_reply word_sum
echo_reply-accepted code c0 c1 rest reply (b8, (b, (h0, (h1, br)))) few some_data good e =
    let request = 8 ∷ code ∷ c0 ∷ c1 ∷ rest in
    let v = echo_checksum (u16_at c0 c1) in
    let (w, lt) = echo_checksum_lem c0 c1 h0 h1 in
    let made : reply ≡ 0 ∷ code ∷ (stored v ++ rest) = some_injective (sym e) in
    let size : length request ≡ length rest + 4 = omega arith in
    let size' : length (0 ∷ code ∷ (stored v ++ rest)) ≡ length rest + 4 = omega arith in
    let (m, _) =
      (chksum_zero_iff request (b8, (b, (h0, (h1, br)))) (omega arith)).0
        (subst (λ n. chksum request n ≡ some 0) (sym size) good) in
    let correct =
      (chksum_zero_iff (0 ∷ code ∷ (stored v ++ rest))
          (omega arith, (b, (omega arith, (omega arith, br)))) (omega arith)).1
        (omega (arith, w, m, lt), λ z. omega (arith, z, some_data)) in
    rw made (subst (λ n. chksum (0 ∷ code ∷ (stored v ++ rest)) n ≡ some 0) size' correct)
  where
    some_injective : {a b : List ℕ} → some a ≡ some b → a ≡ b
    some_injective q = cc

-- An echo request with a correct checksum whose code and data are 0 is answered by zeros alone, and
-- the checksum of these is not 0: the reply is not accepted.
pub echo_reply_zero :
    (c0 c1 : ℕ) (rest : List ℕ)
    → IsBytes (8 ∷ 0 ∷ c0 ∷ c1 ∷ rest)
    → length rest + 4 < 2 ^ 16
    → word_sum rest ≡ 0
    → chksum (8 ∷ 0 ∷ c0 ∷ c1 ∷ rest) (length rest + 4) ≡ some 0
    → (reply : List ℕ) × (echo_reply (8 ∷ 0 ∷ c0 ∷ c1 ∷ rest) ≡ some reply)
      × (chksum reply (length rest + 4) ≢ some 0)
unfolding echo_reply word_sum
echo_reply_zero c0 c1 rest (b8, (b, (h0, (h1, br)))) few nil good =
    let request = 8 ∷ 0 ∷ c0 ∷ c1 ∷ rest in
    let v = echo_checksum (u16_at c0 c1) in
    let reply = 0 ∷ 0 ∷ (stored v ++ rest) in
    let size : length request ≡ length rest + 4 = omega arith in
    let size' : length reply ≡ length rest + 4 = omega arith in
    let (m, n) =
      (chksum_zero_iff request (b8, (b, (h0, (h1, br)))) (omega arith)).0
        (subst (λ n. chksum request n ≡ some 0) (sym size) good) in
    let upper : c0 ≡ 247 = omega (arith, m, nil) in
    let lower : c1 ≡ 255 = omega (arith, m, nil) in
    let zero_word : v ≡ 0 = ground (arith, upper, lower) in
    (
      reply,
      refl,
      λ q.
          ((chksum_zero_iff reply (omega arith, (omega arith, (omega arith, (omega arith, br))))
                (omega arith)).0
              (subst (λ n. chksum reply n ≡ some 0) (sym size') q)).1
            (omega (arith, zero_word, nil)),
    )
