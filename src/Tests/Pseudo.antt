-- ===== src/Tests/Pseudo.antt =====
-- A datagram with two bytes of data.
use linux_program_practice.Sip.Pseudo.Doubled.{chksum_pseudo_iff, pseudo_header}
use linux_program_practice.Sip.Pseudo.{chksum_pseudo}
use linux_program_practice.Sip.Checksum.{stored, chksum, chksum_standard, add_octets, fold_all}
use linux_program_practice.Sip.Checksum.Sums.{word_sum}
use linux_program_practice.Base.{ℕ, ◌%◌, ◌≡◌, ◌↔◌, refl, some, List, [], ◌∷◌, ◌++◌, arith}

abbrev ports : List ℕ
ports = 0x13 ∷ 0x88 ∷ 0 ∷ 53 ∷ 0 ∷ 10 ∷ []

abbrev text : List ℕ
text = b'h' ∷ b'i' ∷ []

checksum : chksum_pseudo (ports ++ 0 ∷ 0 ∷ text) 10 0x0100000a 0x0200000a 17 10 ≡ some 4712
unfolding chksum_pseudo chksum chksum_standard add_octets fold_all
checksum = refl

chksum_pseudo_iff_example :
    (word_sum (pseudo_header 0x0100000a 0x0200000a 17 10 ++ (ports ++ (stored 4712 ++ text)))
        % 65535
      ≡ 0)
    ↔ (word_sum (ports ++ 0 ∷ 0 ∷ text) % 65535 ≡ 0)
chksum_pseudo_iff_example =
    chksum_pseudo_iff 3 ports text 10 0x0100000a 0x0200000a 17 10 4712 refl (omega arith)
      (omega arith) (omega arith) (omega arith) (omega arith) (omega arith) (omega arith) checksum
