-- ===== src/Sip/Ip/Receive.antt =====
-- Which datagrams the checks of ip_input let through.
use linux_program_practice.Sip.Checksum.Sums.{chksum-returns}
use linux_program_practice.Base.{
  ℕ, ◌+◌, ◌*◌, ◌%◌, ◌^◌, ◌≤◌, ◌≡◌, ◌≢◌, ◌⊎◌, true, false, arith, if◌then◌else◌, ◌<◌, sym, ap, ◌∙◌,
  ◌↔◌, some, List, ◌∷◌, >>=-eq-some, length,
}
use linux_program_practice.Sip.Arp.{NetDevice}
use linux_program_practice.Sip.Checksum.{htons, chksum}
use linux_program_practice.Sip.Ip.{
  SipIphdr, ip_is_broadcast, dropped, deliver, fragment, ip_check, is_fragment, Input, ip_accept,
  iph_of, iphdr_len,
}

-- The conditions of ip_input, on a frame of `tot_len` bytes.
pub record Accepted (dev : NetDevice) (tot_len : ℕ) (iph : SipIphdr) : Type 0 where
  pub ipv4 : iph.version ≡ 4
  pub long_header : 5 ≤ iph.ihl
  pub whole : htons iph.tot_len ≤ (tot_len + 4294967282) % 2 ^ 32
  pub no_data : htons iph.tot_len ≤ 4 * iph.ihl
  pub ours : (iph.daddr ≡ dev.ip_host) ⊎ (ip_is_broadcast dev iph.daddr ≡ true)
  pub from_one : ip_is_broadcast dev iph.saddr ≡ false

ip_check-Accepted :
    (dev : NetDevice) (n : ℕ) (iph : SipIphdr) (sum : ℕ)
    → ip_check dev n iph sum ≢ dropped
    → Accepted dev n iph × (sum ≡ 0)
unfolding ip_check
ip_check-Accepted dev n iph sum h = (
  record {
    ipv4 = ground arith;
    long_header = ground arith;
    whole = ground arith;
    no_data = ground arith;
    ours = ground arith;
    from_one = ground arith;
  },
  ground arith,
)

Accepted-ip_check :
    (dev : NetDevice) (n : ℕ) (iph : SipIphdr)
    → Accepted dev n iph
    → ip_check dev n iph 0 ≡ (if is_fragment iph.frag_off then fragment else deliver iph.protocol)
unfolding ip_check
Accepted-ip_check dev n iph a =
    ground (arith, a.ipv4, a.long_header, a.whole, a.no_data, a.ours, a.from_one)

some_injective : {a b : Input} → some a ≡ some b → a ≡ b
some_injective e = cc

-- The checks drop a packet, or read it as follows: it is not dropped exactly where its header is
-- whole and has a correct checksum, the version is 4, the header length at least 20 bytes and within
-- the frame, the datagram addressed to the device or to a broadcast address and not from one, and
-- where the datagram is no longer than its header. Then it is reassembled or delivered by protocol.
pub ip_accept_iff :
    (dev : NetDevice) (n : ℕ) (raw : List ℕ) (r : Input)
    → r ≢ dropped
    → (ip_accept dev n raw ≡ some r) ↔ (
        (iph : SipIphdr) × (iph_of raw ≡ some iph)
        × (chksum raw iphdr_len ≡ some 0)
        × Accepted dev n iph
        × (r ≡ (if is_fragment iph.frag_off then fragment else deliver iph.protocol)))
unfolding ip_accept
ip_accept_iff dev n raw r kept = (
  λ e.
      let (iph, read, e1) = >>=-eq-some (iph_of raw) _ e in
      let (sum, summed, e2) = >>=-eq-some (chksum raw iphdr_len) _ e1 in
      let same : ip_check dev n iph sum ≡ r = some_injective e2 in
      let (a, z) = ip_check-Accepted dev n iph sum (λ q. kept (sym same ∙ q)) in
      (iph, read, summed ∙ ap some z, a, sym same ∙ (rw z (Accepted-ip_check dev n iph a))),
  λ (iph, read, summed, a, is). rw (read, summed, is) (ap some (Accepted-ip_check dev n iph a)),
)

iph_of-long : (raw : List ℕ) (iph : SipIphdr) → iph_of raw ≡ some iph → iphdr_len ≤ length raw
unfolding iph_of
iph_of-long (a ∷ b ∷ c ∷ d ∷ e ∷ f ∷ g ∷ h ∷ i ∷ j ∷ k ∷ l ∷ m ∷ n ∷ o ∷ p ∷ q ∷ r ∷ s ∷ t ∷ rest)
      iph x =
    omega arith
iph_of-long raw iph x = cc

data_dropped :
    (dev : NetDevice) (n : ℕ) (iph : SipIphdr) (sum : ℕ)
    → 4 * iph.ihl < htons iph.tot_len
    → ip_check dev n iph sum ≡ dropped
unfolding ip_check
data_dropped dev n iph sum long = ground arith

-- Every datagram that is longer than its header, by the lengths in its header, is dropped.
pub ip_accept-data :
    (dev : NetDevice) (n : ℕ) (raw : List ℕ) (iph : SipIphdr)
    → iph_of raw ≡ some iph
    → 4 * iph.ihl < htons iph.tot_len
    → ip_accept dev n raw ≡ some dropped
unfolding ip_accept
ip_accept-data dev n raw iph read long =
    let (sum, summed) = chksum-returns raw iphdr_len (iph_of-long raw iph read) in
    rw (read, summed) (ap some (data_dropped dev n iph sum long))
