-- ===== src/Sip/Arp.antt =====
-- LinuxCodeBak/Code/19/sip_arp.c and sip_arp.h: the ARP table, and the packets that are made and
-- handled. An operation reads the clock as `now`, taken not to change while it runs. Addresses of
-- Ethernet are lists of bytes, those of IP the 32-bit words that the code compares. Numbers that the
-- code puts through htons and back are left in their own order.
pub mod Table
pub mod Input
use linux_program_practice.Base.{
  ℕ, zero, suc, ◌+◌, ◌*◌, ◌/◌, ◌%◌, Bool, true, false, ◌&&◌, Option, none, some, List, [], ◌∷◌,
  ◌++◌, map, ltb, ◌==◌, if◌then◌else◌, get_elem?, set, take, ◌-◌, ◌^◌, ◌≤◌, ◌<◌, min, ◌≡◌, refl,
  sym, ap, subst, ◌∙◌, ◌≢◌, ◌↔◌, ◌⊎◌, inl, inr, not, ◌||◌, append-nil, append_assoc, arith, leb,
  ltb→lt, lt→ltb, leb→le, ==_iff, &&_iff, Bool-cases, Option-cases, ◌>>=◌, >>=-eq-some, length,
  drop, All, length-append, length-set, get_elem?-set_self, get_elem?-set_ne, All-set, All-get,
  take-append-drop, length-take, length-drop, codes, get_elem?-append, set-append,
}

-- enum arp_status
pub data ArpStatus : Type 0 where
  arp_empty arp_established : ArpStatus

-- struct arpt_arp
pub record ArptArp : Type 0 where
  pub ipaddr : ℕ
  pub ethaddr : List ℕ
  pub ctime : ℕ
  pub status : ArpStatus

abbrev pub arp_live_time : ℕ
arp_live_time = 20

abbrev pub is_empty : ArpStatus → Bool
is_empty arp_empty = true
is_empty arp_established = false

abbrev pub is_established : ArpStatus → Bool
is_established arp_empty = false
is_established arp_established = true

abbrev pub cleared : ArptArp
cleared = record { ipaddr = 0; ethaddr = 0 ∷ 0 ∷ 0 ∷ 0 ∷ 0 ∷ 0 ∷ []; ctime = 0; status = arp_empty }

-- init_arp_entry, on the array.
pub init_arp_entry : List ArptArp → List ArptArp
init_arp_entry table = map (λ e. cleared) table

-- The test of a round of arp_find_entry by which an entry counts as expired.
abbrev pub is_expired : ℕ → ArptArp → Bool
is_expired now e = ltb (now + arp_live_time) e.ctime

abbrev pub is_for : ℕ → ArptArp → Bool
is_for ip e = e.ipaddr == ip && is_established e.status

-- What a search gives: the index of an entry, if any, and the table.
pub record Search : Type 0 where
  pub found : Option ℕ
  pub table : List ArptArp

abbrev pub behind : ArptArp → Search → Search
behind e r = record r { table = e ∷ r.table }

-- arp_find_entry, from index `i` on.
pub find_from : ℕ → ℕ → ℕ → List ArptArp → Search
find_from now ip i [] = record { found = none; table = [] }
find_from now ip i (e ∷ es) =
    let rest = find_from now ip (suc i) es in
    if is_expired now e
    then behind (record e { status = arp_empty }) rest
    else if is_for ip e
    then record { found = some i; table = e ∷ es }
    else behind e rest

unfoldable pub arp_find_entry : ℕ → ℕ → List ArptArp → Search
unfolding find_from
arp_find_entry now ip table = find_from now ip 0 table

-- The writes to the entry found.
abbrev pub write_entry : Option ℕ → (ArptArp → ArptArp) → List ArptArp → List ArptArp
write_entry none write table = table
write_entry (some i) write table = elim (get_elem? table i) [
  | none ↦ table
  | some e ↦ set table i (write e)
]

abbrev pub renewed : ℕ → List ℕ → ArptArp → ArptArp
renewed now ethaddr e = record e { ethaddr = ethaddr; status = arp_established; ctime = now }

-- update_arp_entry
unfoldable pub update_arp_entry : ℕ → ℕ → List ℕ → List ArptArp → Search
update_arp_entry now ip ethaddr table =
    let r = arp_find_entry now ip table in
    record { found = r.found; table = write_entry r.found (renewed now ethaddr) r.table }

-- The search of arp_add_entry for an empty entry, from index `i` on.
pub find_empty : ℕ → List ArptArp → Option ℕ
find_empty i [] = none
find_empty i (e ∷ es) =
    let rest = find_empty (suc i) es in if is_empty e.status then some i else rest

abbrev pub or_else : Option ℕ → Option ℕ → Option ℕ
or_else none o = o
or_else (some i) o = some i

abbrev pub new_entry : ℕ → ℕ → List ℕ → ArpStatus → ArptArp
new_entry now ip ethaddr status = record {
  ipaddr = ip;
  ethaddr = ethaddr;
  ctime = now;
  status = status;
}

-- arp_add_entry
unfoldable pub arp_add_entry : ℕ → ℕ → List ℕ → ArpStatus → List ArptArp → List ArptArp
unfolding find_empty
arp_add_entry now ip ethaddr status table =
    let r = update_arp_entry now ip ethaddr table in
    write_entry (or_else r.found (find_empty 0 r.table)) (λ e. new_entry now ip ethaddr status)
      r.table

-- What the code reads of struct net_device.
pub record NetDevice : Type 0 where
  pub ip_host : ℕ
  pub ip_netmask : ℕ
  pub ip_gw : ℕ
  pub hwaddr : List ℕ
  pub hwbroadcast : List ℕ
  pub hwaddr_len : ℕ

-- An ARP packet in its Ethernet frame: the fields that the code sets other than the constants.
pub record ArpPacket : Type 0 where
  pub h_dest : List ℕ
  pub h_source : List ℕ
  pub ar_op : ℕ
  pub ar_sha : List ℕ
  pub ar_sip : ℕ
  pub ar_tha : List ℕ
  pub ar_tip : ℕ

abbrev pub arpop_request : ℕ
arpop_request = 1

abbrev pub arpop_reply : ℕ
arpop_reply = 2

abbrev pub or_default : Option (List ℕ) → List ℕ → List ℕ
or_default none a = a
or_default (some b) a = b

abbrev pub zero_bytes : ℕ → List ℕ
zero_bytes zero = []
zero_bytes (suc n) = 0 ∷ zero_bytes n

abbrev pub target_bytes : Option (List ℕ) → ℕ → List ℕ
target_bytes none len = zero_bytes len
target_bytes (some hw) len = take len hw

-- arp_create; `alloc` is whether skb_alloc gives a buffer.
unfoldable pub arp_create :
    (alloc : Bool)
    → NetDevice
    → ℕ
    → (src_ip dest_ip : ℕ) → (src_hw dest_hw target_hw : Option (List ℕ)) → Option ArpPacket
arp_create alloc dev kind src_ip dest_ip src_hw dest_hw target_hw =
    if alloc
    then some (record {
      h_dest = or_default dest_hw dev.hwbroadcast;
      h_source = or_default src_hw dev.hwaddr;
      ar_op = kind;
      ar_sha = or_default src_hw dev.hwaddr;
      ar_sip = src_ip;
      ar_tha = target_bytes target_hw dev.hwaddr_len;
      ar_tip = dest_ip;
    })
    else none

-- What the handlers change: the table, and what was given to dev->linkoutput, latest last.
pub record ArpState : Type 0 where
  pub table : List ArptArp
  pub output : List ArpPacket

abbrev pub link_output : Option ArpPacket → ArpState → ArpState
link_output none s = s
link_output (some p) s = record s { output = s.output ++ p ∷ [] }

-- The operator & on words of `width` bits.
unfoldable pub and_bits : ℕ → ℕ → ℕ → ℕ
and_bits zero a b = 0
and_bits (suc width) a b = a % 2 * (b % 2) + 2 * and_bits width (a / 2) (b / 2)

-- arp_request
unfoldable pub arp_request : Bool → NetDevice → ℕ → ArpState → ArpState
unfolding and_bits
arp_request alloc dev ip s =
    let tip =
      if and_bits 32 ip dev.ip_netmask == and_bits 32 dev.ip_host dev.ip_netmask
      then ip
      else dev.ip_gw in
    link_output (arp_create alloc dev arpop_request dev.ip_host tip (some dev.hwaddr) none none) s

abbrev pub sizeof_arphdr : ℕ
sizeof_arphdr = 28

-- arp_input, on a packet of `tot_len` bytes.
unfoldable pub arp_input :
    (now : ℕ) → (alloc : Bool) → (tot_len : ℕ) → ArpPacket → NetDevice → ArpState → ArpState
arp_input now alloc tot_len p dev s =
    if ltb tot_len sizeof_arphdr
    then s
    else let t =
        if p.ar_tip == dev.ip_host
        then (update_arp_entry now p.ar_tip dev.hwaddr s.table).table
        else s.table in
      let learned = arp_add_entry now p.ar_sip p.h_source arp_established t in
      if p.ar_op == arpop_request
      then link_output
          (arp_create alloc dev arpop_reply dev.ip_host p.ar_sip (some dev.hwaddr) (some p.h_source)
            (some p.ar_sha))
          (record s { table = learned })
      else if p.ar_op == arpop_reply
      then record s { table = learned }
      else record s { table = t }
