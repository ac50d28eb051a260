-- ===== src/Sip/Ether.antt =====
-- LinuxCodeBak/Code/19/sip_ether.c: the frames that come in (input) and the sending of a datagram
-- (output), over the ARP table. The functions that fill in struct net_device are not modelled.
pub mod Frames
pub mod Resolve
use linux_program_practice.Base.{
  ℕ, zero, suc, ◌+◌, ◌-◌, ◌*◌, ◌/◌, ◌%◌, ◌^◌, ◌≤◌, ◌<◌, min, ◌≡◌, refl, sym, ap, subst, ◌∙◌, ◌≢◌,
  ◌↔◌, ◌⊎◌, inl, inr, Bool, true, false, not, ◌&&◌, ◌||◌, Option, none, some, List, [], ◌∷◌, ◌++◌,
  map, append-nil, append_assoc, arith, ltb, leb, ◌==◌, if◌then◌else◌, ltb→lt, lt→ltb, leb→le,
  ==_iff, &&_iff, Bool-cases, Option-cases, ◌>>=◌, >>=-eq-some, length, get_elem?, set, take, drop,
  All, length-append, length-set, get_elem?-set_self, get_elem?-set_ne, All-set, All-get,
  take-append-drop, length-take, length-drop, codes, get_elem?-append, set-append, All-append,
  take-append, drop-append,
}
use linux_program_practice.Sip.Arp.{
  ArptArp, ArpPacket, ArpState, NetDevice, arp_add_entry, arp_established, arp_find_entry,
  arp_input, arp_request, and_bits,
}
use linux_program_practice.Sip.Ip.{Input, iph_of, ip_accept}

abbrev pub eth_p_ip : ℕ
eth_p_ip = 0x0800

abbrev pub eth_p_arp : ℕ
eth_p_arp = 0x0806

-- samemac, for addresses of six bytes.
unfoldable pub samemac : List ℕ → List ℕ → Bool
samemac (a ∷ xs) (b ∷ ys) = a == b && samemac xs ys
samemac [] ys = true
samemac (a ∷ xs) [] = false

-- A frame of `n` bytes: the Ethernet header, the type in host order, and the bytes behind it as an ARP
-- packet and as an IP header.
pub record Frame : Type 0 where
  pub n : ℕ
  pub h_dest : List ℕ
  pub h_source : List ℕ
  pub h_proto : ℕ
  pub arp : ArpPacket
  pub raw : List ℕ

-- What input leaves: the ARP side, and what the checks of ip_input said, if it was called; what it does
-- with fragments and buffers is in Sip/Ip/Delivery.
pub record Taken : Type 0 where
  pub arp : ArpState
  pub ip : Option Input

-- The `switch` of input.
unfoldable pub ether_switch :
    (now : ℕ) → (alloc : Bool) → Frame → NetDevice → ArpState → Option Taken
ether_switch now alloc f dev s =
    let answered = arp_input now alloc f.n f.arp dev s in
    let given = iph_of f.raw >>= λ iph. ip_accept dev f.n f.raw >>= λ r. some (record {
      arp = record s { table = arp_add_entry now iph.saddr f.h_source arp_established s.table };
      ip = some r;
    }) in
    if f.h_proto == eth_p_ip
    then given
    else if f.h_proto == eth_p_arp
    then some (record { arp = if f.arp.ar_tip == dev.ip_host then answered else s; ip = none })
    else some (record { arp = s; ip = none })

-- input, after a read of f.n bytes; `fits` is whether skb_alloc gives a buffer for them.
unfoldable pub ether_input :
    (now : ℕ) → (fits alloc : Bool) → Frame → NetDevice → ArpState → Option Taken
unfolding ether_switch samemac
ether_input now fits alloc f dev s =
    let switched = ether_switch now alloc f dev s in
    if f.n == 0 || not fits
    then some (record { arp = s; ip = none })
    else if samemac f.h_dest dev.hwaddr || samemac f.h_dest dev.hwbroadcast
    then switched
    else some (record { arp = s; ip = none })

-- The address that output asks for: that of the gateway where the destination is in another net.
abbrev pub next_hop : NetDevice → ℕ → ℕ
next_hop dev daddr =
    if and_bits 32 daddr dev.ip_netmask == and_bits 32 dev.ip_host dev.ip_netmask
    then daddr
    else dev.ip_gw

-- What the loop of output ends with: the state, and the Ethernet address, if it was found.
pub record Resolved : Type 0 where
  pub state : ArpState
  pub ethaddr : Option (List ℕ)

abbrev pub address_at : Option ℕ → List ArptArp → Option (List ℕ)
address_at none table = none
address_at (some i) table = elim (get_elem? table i) [ none ↦ none | some e ↦ some e.ethaddr ]

-- While output sleeps, the thread that receives may change the table: `clock` and `learn` say what
-- the time is at a search and what becomes of the table in the second behind it.
module _ (clock : ℕ → ℕ) (learn : ℕ → List ArptArp → List ArptArp) (alloc : ℕ → Bool)
    (dev : NetDevice) (ip : ℕ) where
  -- The loop of output, with `left` rounds until `times` is 5.
  pub resolve : (left k : ℕ) → ArpState → Resolved
  resolve zero k s =
      let r = arp_find_entry (clock k) ip s.table in
      record { state = record s { table = r.table }; ethaddr = address_at r.found r.table }
  resolve (suc left) k s =
      let r = arp_find_entry (clock k) ip s.table in
      let asked = arp_request (alloc k) dev ip (record s { table = r.table }) in
      let again = resolve left (suc k) (record asked { table = learn k asked.table }) in
      elim r.found [
        | some i ↦ record {
          state = record s { table = r.table };
          ethaddr = address_at (some i) r.table;
        }
        | none ↦ again
      ]

-- What output leaves: its return value, and the addresses of the frame that was sent.
pub record Sent : Type 0 where
  pub state : ArpState
  pub retval : ℕ
  pub frame : Option (List ℕ × List ℕ)

-- What follows the loop.
abbrev pub send_to : NetDevice → ArpState → Option (List ℕ) → Sent
send_to dev s none = record { state = s; retval = 1; frame = none }
send_to dev s (some mac) = record { state = s; retval = 0; frame = some (mac, dev.hwaddr) }

-- output
unfoldable pub ether_output :
    (clock : ℕ → ℕ)
    → (learn : ℕ → List ArptArp → List ArptArp) → (alloc : ℕ → Bool) → NetDevice
    → (daddr : ℕ) → ArpState
    → Sent
unfolding resolve
ether_output clock learn alloc dev daddr s =
    let r = resolve clock learn alloc dev (next_hop dev daddr) 5 0 s in
    send_to dev r.state r.ethaddr
