-- ===== src/Sip/Frag.antt =====
-- LinuxCodeBak/Code/19/sip_ip.c: ip_frag, with the skb_alloc that it calls. A buffer is its bytes from
-- head to end, tail is an index, and `none` is an access outside of a buffer or a division by 0. The
-- memory that skb_alloc asks for is given.
pub mod Lost
use linux_program_practice.Base.{
  ℕ, zero, suc, ◌+◌, ◌-◌, ◌*◌, ◌/◌, ◌%◌, ◌^◌, Option, none, some, List, [], ◌∷◌, ◌++◌, ltb, leb,
  ◌==◌, if◌then◌else◌, ◌>>=◌, length, take, drop, not,
}
use linux_program_practice.Sip.Checksum.{chksum, htons, stored}
use linux_program_practice.Sip.Ip.{put_check}

abbrev pub zeros : ℕ → List ℕ
zeros zero = []
zeros (suc n) = 0 ∷ zeros n

-- SKB_DATA_ALIGN, with words of 4 bytes
abbrev pub skb_data_align : ℕ → ℕ
skb_data_align size = (size + 3) / 4 * 4

-- The buffer of skb_alloc.
abbrev pub new_buffer : ℕ → List ℕ
new_buffer size = zeros (skb_data_align size)

-- memcpy out of a buffer, and into one.
unfoldable pub copy_from : (at n : ℕ) → List ℕ → Option (List ℕ)
copy_from at n buf = if leb (at + n) (length buf) then some (take n (drop at buf)) else none

unfoldable pub copy_to : (at : ℕ) → (src dst : List ℕ) → Option (List ℕ)
copy_to at src dst =
    if leb (at + length src) (length dst)
    then some (take at dst ++ src ++ drop (at + length src) dst)
    else none

abbrev pub dist : ℕ → ℕ → ℕ
dist a b = (a - b) + (b - a)

-- frag_num, a __u8: the quotient of two ints, which rounds to 0.
unfoldable pub frag_count : (mtu tot_len : ℕ) → Option ℕ
frag_count mtu tot_len =
    let above = tot_len + (mtu + 1) / 2 in
    let q = dist above 20 / dist mtu 34 % 256 in
    let negative = if ltb above 20 then not (ltb mtu 34) else ltb mtu 34 in
    if mtu == 34 then none else some (if negative then (256 - q) % 256 else q)

-- The fields frag_off, tot_len and check of the header behind the 14 bytes of the Ethernet header.
unfoldable pub put_fields : (frag_off tot_len : ℕ) → List ℕ → Option (List ℕ)
put_fields frag_off tot_len buf = do
  b1 ← copy_to 20 (stored (htons frag_off)) buf
  b2 ← copy_to 16 (stored (htons tot_len)) b1
  b3 ← copy_to 24 (stored 0) b2
  v ← chksum (drop 14 b3) 20
  copy_to 24 (stored v) b3

unfoldable pub first_fragment : (mtu : ℕ) → (buf : List ℕ) → Option (List ℕ)
first_fragment mtu buf = do
  bytes ← copy_from 0 mtu buf
  b ← copy_to 0 bytes (new_buffer mtu)
  put_fields 0x2000 ((mtu + 2 ^ 16 - 14) % 2 ^ 16) b

-- i*(mtu - ETH_HLEN - IPHDR_LEN) + IPHDR_LEN, as a __u16
abbrev pub offset_of : (mtu i : ℕ) → ℕ
offset_of mtu i = (i * (mtu + 2 ^ 16 - 34) + 20) % 2 ^ 16

-- The headers, and the n bytes from tail on.
unfoldable pub later_fragment : (mtu tail n frag_off tot_len : ℕ) → (buf : List ℕ) → Option (List ℕ)
later_fragment mtu tail n frag_off tot_len buf = do
  headers ← copy_from 0 34 buf
  b ← copy_to 0 headers (new_buffer mtu)
  bytes ← copy_from tail n buf
  c ← copy_to 34 bytes b
  put_fields frag_off tot_len c

-- A size below 0 is a size_t that no buffer has.
unfoldable pub last_fragment : (mtu i tail : ℕ) → (buf : List ℕ) → Option (List ℕ)
last_fragment mtu i tail buf =
    if ltb (length buf) tail
    then none
    else later_fragment mtu tail (length buf - tail) (offset_of mtu i)
        ((length buf - tail + 20) % 2 ^ 16) buf

unfoldable pub middle_fragment : (mtu i tail : ℕ) → (buf : List ℕ) → Option (List ℕ)
middle_fragment mtu i tail buf =
    let frag_off = offset_of mtu i in
    if ltb mtu 34
    then none
    else later_fragment mtu tail (mtu - 34)
        (if frag_off / 0x2000 % 2 == 1 then frag_off else frag_off + 0x2000) (mtu - 14) buf

-- The rounds of the loop behind the first, i of which are done and n of which are left.
pub more_fragments : (mtu i tail : ℕ) → (buf : List ℕ) → (n : ℕ) → Option (List (List ℕ))
more_fragments mtu i tail buf zero = some []
more_fragments mtu i tail buf (suc zero) = do f ← last_fragment mtu i tail buf; some (f ∷ [])
more_fragments mtu i tail buf (suc (suc n)) =
    let rest = more_fragments mtu (suc i) tail buf (suc n) in
    (do f ← middle_fragment mtu i tail buf; fs ← rest; some (f ∷ fs))

-- The loop of ip_frag. The first round leaves tail at mtu; no other moves it.
pub fragments : (mtu : ℕ) → (buf : List ℕ) → (n : ℕ) → Option (List (List ℕ))
fragments mtu buf zero = some []
fragments mtu buf (suc n) = do
  f ← first_fragment mtu buf
  fs ← more_fragments mtu 1 mtu buf n
  some (f ∷ fs)

-- ip_frag on a packet with total length tot_len; the field mtu of a device is a __u8.
unfoldable pub ip_frag : (mtu tot_len : ℕ) → (buf : List ℕ) → Option (List (List ℕ))
ip_frag mtu tot_len buf = do n ← frag_count mtu tot_len; fragments mtu buf n
