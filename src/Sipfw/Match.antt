-- ===== src/Sipfw/Match.antt =====
-- LinuxCode/20/sipfw/module/sipfw_k_common.c: SIPFW_IsAddtionMatch, SIPFW_IsIPMatch, SIPFW_IsMatch.
pub mod First
use linux_program_practice.Base.{
  ℕ, Bool, true, false, not, ◌&&◌, ◌||◌, List, [], ◌∷◌, Option, none, some, ◌==◌, if◌then◌else◌,
}
use linux_program_practice.Sipfw.Types.{
  Rule, IpHdr, TcpHdr, IgmpHdr, SkBuff, ipproto_icmp, ipproto_igmp, ipproto_tcp, ipproto_udp,
  icgmp_type, icgmp_code, tcp_fin, tcp_syn, tcp_ack,
}

-- The test that the TCP and the UDP case share: a port of 0 in the rule is any port.
unfoldable pub ports_match : TcpHdr → Rule → Bool
ports_match tcph r =
    (tcph.source == r.sport || r.sport == 0) && (tcph.dest == r.dport || r.dport == 0)

-- The flags of the TCP case.
unfoldable pub flags_match : TcpHdr → Rule → Bool
flags_match tcph r =
    if r.addtion == 0
    then true
    else tcp_ack r.addtion == tcph.ack
      && tcp_fin r.addtion == tcph.fin
      && tcp_syn r.addtion == tcph.syn

-- The case that ICMP and IGMP share.
unfoldable pub type_matches : IgmpHdr → Rule → Bool
type_matches igmph r =
    if r.addtion == 0
    then true
    else icgmp_type r.addtion == igmph.kind && icgmp_code r.addtion == igmph.code

-- SIPFW_IsAddtionMatch, with `data` in its two views.
unfoldable pub is_addtion_match : IpHdr → TcpHdr → IgmpHdr → Rule → Bool
is_addtion_match iph tcph igmph r =
    if iph.protocol == ipproto_tcp
    then (if ports_match tcph r then flags_match tcph r else false)
    else if iph.protocol == ipproto_udp
    then ports_match tcph r
    else if iph.protocol == ipproto_icmp || iph.protocol == ipproto_igmp
    then type_matches igmph r
    else false

-- SIPFW_IsIPMatch: an address or a protocol of 0 in the rule is any.
unfoldable pub is_ip_match : IpHdr → Rule → Bool
is_ip_match iph r =
    (iph.daddr == r.dest || r.dest == 0)
    && (iph.saddr == r.source || r.source == 0)
    && (iph.protocol == r.protocol || r.protocol == 0)

-- The tests of one round of the loop of SIPFW_IsMatch.
abbrev pub rule_matches : SkBuff → Rule → Bool
rule_matches skb r =
    if is_ip_match skb.iph r then is_addtion_match skb.iph skb.tcph skb.igmph r else false

-- SIPFW_IsMatch. `none` is the null pointer: no rule matches.
unfoldable pub is_match : SkBuff → List Rule → Option Rule
is_match skb [] = none
is_match skb (r ∷ rs) = if rule_matches skb r then some r else is_match skb rs
