-- ===== src/Sip/Checksum.antt =====
-- LinuxCodeBak/Code/19/sip_skbuff.c: the Internet checksum (SIP_ChksumStandard, SIP_Chksum). Memory is
-- a list of bytes, a read behind its end a fault, and the machine little-endian. `len` is a __u16.
pub mod Sums
pub mod Verify
use linux_program_practice.Base.{
  ℕ, zero, suc, ◌+◌, ◌-◌, ◌*◌, ◌/◌, ◌%◌, ◌^◌, ◌≤◌, ◌<◌, min, ◌≡◌, refl, sym, ap, subst, ◌∙◌, ◌≢◌,
  ◌↔◌, ◌⊎◌, inl, inr, Bool, true, false, not, ◌&&◌, ◌||◌, Option, none, some, List, [], ◌∷◌, ◌++◌,
  map, append-nil, append_assoc, arith, ltb, leb, ◌==◌, if◌then◌else◌, ltb→lt, lt→ltb, leb→le,
  ==_iff, &&_iff, Bool-cases, Option-cases, ◌>>=◌, >>=-eq-some, length, get_elem?, set, take, drop,
  All, length-append, length-set, get_elem?-set_self, get_elem?-set_ne, All-set, All-get,
  take-append-drop, length-take, length-drop, codes, get_elem?-append, set-append,
}
use mathlib.Core.Option

-- htons, and ntohs.
abbrev pub htons : ℕ → ℕ
htons v = v % 256 * 256 + v / 256 % 256

-- The two loops of SIP_ChksumStandard: `acc` after `len` bytes, as a __u32.
unfoldable pub add_octets : ℕ → ℕ → List ℕ → Option ℕ
add_octets zero acc bytes = some acc
add_octets (suc zero) acc [] = none
add_octets (suc zero) acc (b ∷ bytes) = some ((acc + b * 256) % 2 ^ 32)
add_octets (suc (suc len)) acc [] = none
add_octets (suc (suc len)) acc (b ∷ []) = none
add_octets (suc (suc len)) acc (b ∷ c ∷ bytes) =
    add_octets len ((acc + (b * 256 + c)) % 2 ^ 32) bytes

-- (acc >> 16) + (acc & 0xffff)
abbrev pub fold_once : ℕ → ℕ
fold_once acc = acc / 2 ^ 16 + acc % 2 ^ 16

abbrev pub fold_twice : ℕ → ℕ
fold_twice acc =
    let once = fold_once acc in
    let again = fold_once once in if leb (2 ^ 16) once then again else once

-- SIP_ChksumStandard
unfoldable pub chksum_standard : List ℕ → ℕ → Option ℕ
unfolding add_octets
chksum_standard bytes len =
    Option.map (λ acc. htons (fold_twice acc % 2 ^ 16)) (add_octets len 0 bytes)

-- The loop of SIP_Chksum, `while((acc >> 16) != 0)`, on fuel.
unfoldable pub fold_all : ℕ → ℕ → ℕ
fold_all zero acc = acc
fold_all (suc fuel) acc =
    let rest = fold_all fuel (fold_once acc) in if acc / 2 ^ 16 == 0 then acc else rest

-- SIP_Chksum. Two rounds fold any value of 32 bits to 16.
unfoldable pub chksum : List ℕ → ℕ → Option ℕ
unfolding fold_all
chksum bytes len =
    Option.map (λ acc. 2 ^ 16 - 1 - fold_all 2 acc % 2 ^ 16) (chksum_standard bytes len)

-- A __u16 in memory.
abbrev pub stored : ℕ → List ℕ
stored v = v % 256 ∷ v / 256 % 256 ∷ []
