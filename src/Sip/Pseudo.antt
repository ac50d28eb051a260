-- ===== src/Sip/Pseudo.antt =====
-- LinuxCodeBak/Code/19/sip_skbuff.c: SIP_ChksumPseudo, the checksum over a pseudo header. Addresses are
-- the words in memory, and `bytes` is what stands from skb->data to skb->end.
pub mod Doubled
use linux_program_practice.Base.{
  ℕ, ◌+◌, ◌-◌, ◌/◌, ◌%◌, ◌^◌, Option, List, ◌==◌, if◌then◌else◌, ◌>>=◌, some, length, zero, suc,
  ◌*◌, ◌≤◌, ◌<◌, min, ◌≡◌, refl, sym, ap, subst, ◌∙◌, ◌≢◌, ◌↔◌, ◌⊎◌, inl, inr, Bool, true, false,
  not, ◌&&◌, ◌||◌, none, [], ◌∷◌, ◌++◌, map, append-nil, append_assoc, arith, ltb, leb, ltb→lt,
  lt→ltb, leb→le, ==_iff, &&_iff, Bool-cases, Option-cases, >>=-eq-some, get_elem?, set, take, drop,
  All, length-append, length-set, get_elem?-set_self, get_elem?-set_ne, All-set, All-get,
  take-append-drop, length-take, length-drop, codes, get_elem?-append, set-append, All-append,
  take-append, drop-append, get_elem?-none, get_elem?-lt, get_elem?-outside,
}
use linux_program_practice.Sip.Checksum.{chksum, fold_all, htons}

-- The sum of the words of the pseudo header, as they are in memory.
abbrev pub pseudo_sum : (src dest proto proto_len : ℕ) → ℕ
pseudo_sum src dest proto proto_len =
    src % 2 ^ 16
    + src / 2 ^ 16 % 2 ^ 16
    + dest % 2 ^ 16
    + dest / 2 ^ 16 % 2 ^ 16
    + htons proto
    + htons proto_len

-- The two exchanges of bytes, both of which are made where len is odd.
abbrev pub exchanged : (len acc : ℕ) → ℕ
exchanged len acc = if len % 2 == 0 then acc else htons (htons acc)

-- SIP_ChksumPseudo. Two rounds fold any value of 32 bits to 16.
unfoldable pub chksum_pseudo : (bytes : List ℕ) → (len src dest proto proto_len : ℕ) → Option ℕ
unfolding fold_all
chksum_pseudo bytes len src dest proto proto_len = do
  c ← chksum bytes (length bytes % 2 ^ 16)
  let acc = exchanged len (fold_all 2 c) + pseudo_sum src dest proto proto_len
  some (2 ^ 16 - 1 - fold_all 2 (acc % 2 ^ 32) % 2 ^ 16)
