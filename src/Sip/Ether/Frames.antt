-- ===== src/Sip/Ether/Frames.antt =====
-- What a frame does to the ARP side.
use linux_program_practice.Base.{
  ℕ, ◌+◌, ◌≤◌, ◌<◌, ◌≡◌, sym, ap, subst, ◌∙◌, ◌≢◌, ◌⊎◌, Bool, true, not, ◌||◌, Option, none, some,
  arith, ◌==◌, if◌then◌else◌, >>=-eq-some,
}
use linux_program_practice.Sip.Arp.{
  arp_add_entry, arp_established, ArpState, NetDevice, arp_live_time,
}
use linux_program_practice.Sip.Arp.Table.{Learned, Full}
use linux_program_practice.Sip.Arp.Input.{known}
use linux_program_practice.Sip.Ip.{ip_accept, SipIphdr, iph_of}
use linux_program_practice.Sip.Ether.{
  Frame, Taken, ether_input, ether_switch, eth_p_arp, eth_p_ip, samemac,
}

-- A frame with an ARP packet that asks for another host than the device, or answers to another, is
-- not answered, and nothing is learned from it.
pub ether_input-other_host :
    (now : ℕ) (fits alloc : Bool) (f : Frame) (dev : NetDevice) (s : ArpState)
    → f.h_proto ≡ eth_p_arp
    → f.arp.ar_tip ≢ dev.ip_host
    → ether_input now fits alloc f dev s ≡ some (record { arp = s; ip = none })
unfolding ether_input ether_switch
ether_input-other_host now fits alloc f dev s arp other = ground arith

-- The sender of an IP datagram in a frame for the device or for all is learned, under the address
-- that the datagram names and before it is checked: also where ip_input drops it. As long as the
-- table has an entry for that address or an empty one, it maps the address to the Ethernet source.
pub ether_input-Learned :
    (now later : ℕ) (alloc : Bool) (f : Frame) (dev : NetDevice) (s : ArpState) (iph : SipIphdr)
    (t : Taken)
    → now ≤ later + arp_live_time
    → 0 < f.n
    → (samemac f.h_dest dev.hwaddr ≡ true) ⊎ (samemac f.h_dest dev.hwbroadcast ≡ true)
    → f.h_proto ≡ eth_p_ip
    → iph_of f.raw ≡ some iph
    → ether_input now true alloc f dev s ≡ some t
    → Learned later iph.saddr f.h_source t.arp.table ⊎ Full iph.saddr t.arp.table
unfolding ether_input ether_switch
ether_input-Learned now later alloc f dev s iph t clock some_bytes here ip read e =
    let switched : ether_switch now alloc f dev s ≡ some t =
      sym (reaches (ether_switch now alloc f dev s) here) ∙ e in
    let (iph', read', e1) = >>=-eq-some (iph_of f.raw) _ (rw ip at switched) in
    let (r, _, e2) = >>=-eq-some (ip_accept dev f.n f.raw) _ e1 in
    let same : iph' ≡ iph = some_injective (sym read' ∙ read) in
    let kept : arp_add_entry now iph'.saddr f.h_source arp_established s.table ≡ t.arp.table =
      ap (λ (u : Taken). u.arp.table) (some_injective e2) in
    subst (λ table. Learned later iph.saddr f.h_source table ⊎ Full iph.saddr table)
      (ap (λ (h : SipIphdr). arp_add_entry now h.saddr f.h_source arp_established s.table)
          (sym same)
        ∙ kept)
      (known now later iph.saddr f.h_source s.table clock)
  where
    some_injective : {A : Type 0} {a b : A} → some a ≡ some b → a ≡ b
    some_injective q = cc

    reaches :
        (o : Option Taken)
        → (samemac f.h_dest dev.hwaddr ≡ true) ⊎ (samemac f.h_dest dev.hwbroadcast ≡ true)
        → (if f.n == 0 || not true
            then some (record { arp = s; ip = none })
            else if samemac f.h_dest dev.hwaddr || samemac f.h_dest dev.hwbroadcast
            then o
            else some (record { arp = s; ip = none }))
          ≡ o
    reaches o q = ground (arith, some_bytes)
