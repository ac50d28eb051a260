-- ===== src/Sip/Ip.antt =====
-- LinuxCodeBak/Code/19/sip_ip.c: the broadcast test, the checks of ip_input and the header that
-- ip_output completes. A header is its 20 bytes in memory; addresses are the 32-bit words that the
-- code reads from it, on a little-endian machine. sip_reassemble is in Sip/Reassembly, the whole of
-- ip_input, which calls it, in Ip/Delivery, and ip_frag in Sip/Frag: a packet longer than the MTU is an
-- outcome of its own.
pub mod Delivery
pub mod Receive
pub mod Send
use linux_program_practice.Base.{
  ℕ, ◌+◌, ◌-◌, ◌*◌, ◌/◌, ◌%◌, ◌^◌, Bool, true, false, not, ◌&&◌, ◌||◌, Option, none, some, List, [],
  ◌∷◌, ◌++◌, ltb, ◌==◌, if◌then◌else◌, ◌>>=◌, take, drop, zero, suc, ◌≤◌, ◌<◌, min, ◌≡◌, refl, sym,
  ap, subst, ◌∙◌, ◌≢◌, ◌↔◌, ◌⊎◌, inl, inr, map, append-nil, append_assoc, arith, leb, ltb→lt,
  lt→ltb, leb→le, ==_iff, &&_iff, Bool-cases, Option-cases, >>=-eq-some, length, get_elem?, set,
  All, length-append, length-set, get_elem?-set_self, get_elem?-set_ne, All-set, All-get,
  take-append-drop, length-take, length-drop, codes, get_elem?-append, set-append, All-append,
  take-append, drop-append, get_elem?-none, get_elem?-lt, get_elem?-outside,
}
use linux_program_practice.Sip.Arp.{NetDevice, and_bits}
use linux_program_practice.Sip.Checksum.{chksum, htons, stored}

-- struct sip_iphdr
pub record SipIphdr : Type 0 where
  pub ihl : ℕ
  pub version : ℕ
  pub tos : ℕ
  pub tot_len : ℕ
  pub id : ℕ
  pub frag_off : ℕ
  pub ttl : ℕ
  pub protocol : ℕ
  pub check : ℕ
  pub saddr : ℕ
  pub daddr : ℕ

abbrev pub u16_at : ℕ → ℕ → ℕ
u16_at a b = a + 256 * b

abbrev pub u32_at : ℕ → ℕ → ℕ → ℕ → ℕ
u32_at a b c d = a + 256 * b + 256 * 256 * c + 256 * 256 * 256 * d

-- A word in memory.
abbrev pub stored32 : ℕ → List ℕ
stored32 w = w % 256 ∷ w / 256 % 256 ∷ w / 2 ^ 16 % 256 ∷ w / 2 ^ 24 % 256 ∷ []

-- The bytes at nh.raw through struct sip_iphdr: a fault where there are fewer than 20.
unfoldable pub iph_of : List ℕ → Option SipIphdr
iph_of
      (v ∷ t ∷ l0 ∷ l1 ∷ i0 ∷ i1 ∷ f0 ∷ f1 ∷ ttl ∷ p ∷ c0 ∷ c1 ∷ s0 ∷ s1 ∷ s2 ∷ s3 ∷ d0 ∷ d1 ∷ d2
        ∷ d3 ∷ rest) =
    some (record {
      ihl = v % 16;
      version = v / 16;
      tos = t;
      tot_len = u16_at l0 l1;
      id = u16_at i0 i1;
      frag_off = u16_at f0 f1;
      ttl = ttl;
      protocol = p;
      check = u16_at c0 c1;
      saddr = u32_at s0 s1 s2 s3;
      daddr = u32_at d0 d1 d2 d3;
    })
iph_of bytes = none

-- ~w, for a word.
abbrev pub complement32 : ℕ → ℕ
complement32 w = 2 ^ 32 - 1 - w

-- IP_IS_BROADCAST
unfoldable pub ip_is_broadcast : NetDevice → ℕ → Bool
ip_is_broadcast dev ip =
    if ip == 0 || complement32 ip == 0
    then true
    else if ip == dev.ip_host
    then false
    else if and_bits 32 ip dev.ip_netmask == and_bits 32 dev.ip_host dev.ip_netmask
        && and_bits 32 ip (complement32 dev.ip_netmask)
          == and_bits 32 (2 ^ 32 - 1) (complement32 dev.ip_netmask)
    then true
    else false

-- IP_IS_MULTICAST: the constants are converted to the order of the words in memory.
unfoldable pub ip_is_multicast : ℕ → Bool
ip_is_multicast ip = and_bits 32 ip 0xf0 == 0xe0

abbrev pub iphdr_len : ℕ
iphdr_len = 20

abbrev pub eth_hlen : ℕ
eth_hlen = 14

abbrev pub ipproto_icmp : ℕ
ipproto_icmp = 1

abbrev pub ipproto_udp : ℕ
ipproto_udp = 17

-- What the checks of ip_input say of a packet: it is freed, given to sip_reassemble, to icmp_input or to
-- SIP_UDPInput, or left alone.
pub data Input : Type 0 where
  dropped : Input
  fragment : Input
  to_icmp : Input
  to_udp : Input
  ignored : Input

abbrev pub deliver : ℕ → Input
deliver protocol =
    if protocol == ipproto_icmp
    then to_icmp
    else if protocol == ipproto_udp
    then to_udp
    else ignored

-- (ntohs(frag_off) & 0x3FFF) != 0
abbrev pub is_fragment : ℕ → Bool
is_fragment frag_off = not (htons frag_off % 0x4000 == 0)

-- The checks of ip_input on a header, with the result of SIP_Chksum on its 20 bytes. skb->len is unsigned, so the
-- first test never holds.
pub ip_check : NetDevice → ℕ → SipIphdr → ℕ → Input
ip_check dev tot_len iph sum =
    if not (iph.version == 4)
    then dropped
    else if ltb (4 * iph.ihl) iphdr_len
    then dropped
    else if ltb ((tot_len + (2 ^ 32 - eth_hlen)) % 2 ^ 32) (htons iph.tot_len)
    then dropped
    else if ltb (4 * iph.ihl) (htons iph.tot_len)
    then dropped
    else if not (sum == 0)
    then dropped
    else if (not (iph.daddr == dev.ip_host) && not (ip_is_broadcast dev iph.daddr))
        || ip_is_broadcast dev iph.saddr
    then dropped
    else if is_fragment iph.frag_off
    then fragment
    else deliver iph.protocol

-- The same, for a frame of `tot_len` bytes and the bytes from the header on.
unfoldable pub ip_accept : NetDevice → ℕ → List ℕ → Option Input
unfolding ip_check
ip_accept dev tot_len raw = do
  iph ← iph_of raw
  sum ← chksum raw iphdr_len
  some (ip_check dev tot_len iph sum)

-- The header as ip_output writes it, the checksum 0.
unfoldable pub ip_fill : (src dest ttl tos proto : ℕ) → List ℕ → Option (List ℕ)
ip_fill src dest ttl tos proto
      (v ∷ t ∷ l0 ∷ l1 ∷ i0 ∷ i1 ∷ f0 ∷ f1 ∷ u ∷ p ∷ c0 ∷ c1 ∷ s0 ∷ s1 ∷ s2 ∷ s3 ∷ d0 ∷ d1 ∷ d2 ∷ d3
        ∷ rest) =
    some (
      (v ∷ tos ∷ l0 ∷ l1 ∷ i0 ∷ i1 ∷ f0 ∷ f1 ∷ ttl ∷ proto ∷ [])
      ++ 0 ∷ 0 ∷ (stored32 src ++ (stored32 dest ++ rest)))
ip_fill src dest ttl tos proto bytes = none

-- iph->check = v
abbrev pub put_check : ℕ → List ℕ → List ℕ
put_check v raw = take 10 raw ++ (stored v ++ drop 12 raw)

-- What ip_output leaves to dev->output, or to ip_frag where the frame is longer than the MTU.
pub data Output : Type 0 where
  whole : List ℕ → Output
  too_long : List ℕ → Output

-- ip_output. What it prints about the checksum is left out, with the second call of SIP_Chksum.
unfoldable pub ip_output : (mtu tot_len src dest ttl tos proto : ℕ) → List ℕ → Option Output
ip_output mtu tot_len src dest ttl tos proto raw = do
  filled ← ip_fill src dest ttl tos proto raw
  v ← chksum filled iphdr_len
  some (if ltb mtu tot_len then too_long (put_check v filled) else whole (put_check v filled))
