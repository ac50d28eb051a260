-- ===== src/Sipfw/Match/First.antt =====
-- A specification of SIPFW_IsMatch: the decision of a rule as a predicate on packets, and the search for
-- the first rule that applies.
use linux_program_practice.Base.{
  ℕ, true, ◌≡◌, ◌⊎◌, arith, refl, ap, ◌↔◌, inl, inr, Bool, false, Option, none, some, List, [], ◌∷◌,
  ◌++◌, if◌then◌else◌, Bool-cases, All,
}
use linux_program_practice.Sipfw.Types.{
  Rule, SkBuff, ipproto_icmp, ipproto_igmp, ipproto_tcp, ipproto_udp, icgmp_type, icgmp_code,
  tcp_fin, tcp_syn, tcp_ack,
}
use linux_program_practice.Sipfw.Match.{
  is_match, is_ip_match, is_addtion_match, rule_matches, ports_match, flags_match, type_matches,
}

-- A field of a rule against the packet's: 0 stands for any value.
abbrev pub Accepts : ℕ → ℕ → Type 0
Accepts wanted actual = (actual ≡ wanted) ⊎ (wanted ≡ 0)

abbrev pub PortsFit : SkBuff → Rule → Type 0
PortsFit skb r = Accepts r.sport skb.tcph.source × Accepts r.dport skb.tcph.dest

-- The flags of a TCP rule: none given, or acknowledge, finish and synchronise as given.
abbrev pub FlagsFit : SkBuff → Rule → Type 0
FlagsFit skb r =
    (r.addtion ≡ 0)
    ⊎ ((tcp_ack r.addtion ≡ skb.tcph.ack)
        × (tcp_fin r.addtion ≡ skb.tcph.fin)
        × (tcp_syn r.addtion ≡ skb.tcph.syn))

abbrev pub TypeFits : SkBuff → Rule → Type 0
TypeFits skb r =
    (r.addtion ≡ 0)
    ⊎ ((icgmp_type r.addtion ≡ skb.igmph.kind) × (icgmp_code r.addtion ≡ skb.igmph.code))

abbrev pub TransportFits : SkBuff → Rule → Type 0
TransportFits skb r =
    ((skb.iph.protocol ≡ ipproto_tcp) × (PortsFit skb r × FlagsFit skb r))
    ⊎ (((skb.iph.protocol ≡ ipproto_udp) × PortsFit skb r)
        ⊎ (((skb.iph.protocol ≡ ipproto_icmp) ⊎ (skb.iph.protocol ≡ ipproto_igmp))
            × TypeFits skb r))

-- A rule applies to a packet.
abbrev pub Applies : SkBuff → Rule → Type 0
Applies skb r =
    Accepts r.dest skb.iph.daddr
    × Accepts r.source skb.iph.saddr
    × Accepts r.protocol skb.iph.protocol
    × TransportFits skb r

-- The two parts of the test, each against its part of the predicate.
ip-Accepts :
    (skb : SkBuff) (r : Rule)
    → (is_ip_match skb.iph r ≡ true) ↔ (
        Accepts r.dest skb.iph.daddr
        × Accepts r.source skb.iph.saddr
        × Accepts r.protocol skb.iph.protocol)
unfolding is_ip_match
ip-Accepts skb r = ground arith

ports-PortsFit : (skb : SkBuff) (r : Rule) → (ports_match skb.tcph r ≡ true) ↔ PortsFit skb r
unfolding ports_match
ports-PortsFit skb r = ground arith

flags-FlagsFit : (skb : SkBuff) (r : Rule) → (flags_match skb.tcph r ≡ true) ↔ FlagsFit skb r
unfolding flags_match
flags-FlagsFit skb r = ground arith

type-TypeFits : (skb : SkBuff) (r : Rule) → (type_matches skb.igmph r ≡ true) ↔ TypeFits skb r
unfolding type_matches
type-TypeFits skb r = ground arith

addtion-TransportFits :
    (skb : SkBuff) (r : Rule)
    → (is_addtion_match skb.iph skb.tcph skb.igmph r ≡ true) ↔ TransportFits skb r
unfolding is_addtion_match
addtion-TransportFits skb r =
    ground (arith, ports-PortsFit skb r, flags-FlagsFit skb r, type-TypeFits skb r)

both_iff : (a b : Bool) → ((if a then b else false) ≡ true) ↔ ((a ≡ true) × (b ≡ true))
both_iff a b = ground arith

true≢false : {b : Bool} → b ≡ true → b ≡ false → ⊥
true≢false h k = cc

-- The two tests of a round accept exactly the packets to which the rule applies.
pub rule_matches_iff : (skb : SkBuff) (r : Rule) → (rule_matches skb r ≡ true) ↔ Applies skb r
rule_matches_iff skb r = (
  λ h.
      let (a, b) = (both_iff _ _).0 h in
      let (d, s, p) = (ip-Accepts skb r).0 a in (d, s, p, (addtion-TransportFits skb r).0 b),
  λ (d, s, p, t).
      (both_iff _ _).1 ((ip-Accepts skb r).1 (d, s, p), (addtion-TransportFits skb r).1 t),
)

-- What a search of a list for the first applying rule may answer.
abbrev pub Decides : SkBuff → List Rule → Option Rule → Type 0
Decides skb rs none = All (λ r. ¬ Applies skb r) rs
Decides skb rs (some r) =
    (before : List Rule) × (after : List Rule) × (rs ≡ before ++ r ∷ after)
    × Applies skb r
    × All (λ q. ¬ Applies skb q) before

Decides-cons :
    (skb : SkBuff) (r : Rule) (rs : List Rule) (o : Option Rule)
    → ¬ Applies skb r
    → Decides skb rs o
    → Decides skb (r ∷ rs) o
Decides-cons skb r rs none n d = (n, d)
Decides-cons skb r rs (some q) n (before, after, e, a, others) =
    (r ∷ before, after, ap (◌∷◌ r) e, a, (n, others))

-- SIPFW_IsMatch returns the first rule of the list that applies to the packet, with every rule
-- before it not applying, and the null pointer exactly when no rule of the list applies.
pub is_match-Decides : (skb : SkBuff) (rs : List Rule) → Decides skb rs (is_match skb rs)
unfolding is_match
is_match-Decides skb [] = tt
is_match-Decides skb (r ∷ rs) = elim (Bool-cases (rule_matches skb r)) [
  | inl hit ↦ rw hit ([], rs, refl, (rule_matches_iff skb r).0 hit, tt)
  | inr miss ↦ rw miss (
      Decides-cons skb r rs (is_match skb rs)
        (λ a. absurd (true≢false ((rule_matches_iff skb r).1 a) miss)) (is_match-Decides skb rs))
]
