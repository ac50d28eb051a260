-- ===== src/Sip/Ether/Resolve.antt =====
-- The search for the address of the next hop.
use linux_program_practice.Sip.Arp.Table.{arp_find_entry-Finds}
use linux_program_practice.Base.{
  ℕ, zero, suc, ◌+◌, ◌≤◌, ◌≡◌, Bool, true, Option, none, some, List, [], ◌∷◌, arith, length,
  get_elem?, length-append, refl, ◌⊎◌, inl, inr, Option-cases, get_elem?-append,
}
use linux_program_practice.Sip.Arp.{
  link_output, ArpPacket, ArptArp, ArpState, NetDevice, arp_find_entry, arp_request, arp_create,
  is_for,
}
use linux_program_practice.Sip.Ether.{address_at, send_to, resolve, Sent, ether_output, next_hop}

-- An established entry for `ip` with that Ethernet address.
abbrev pub Holds : ℕ → List ArptArp → List ℕ → Type 0
Holds ip table mac =
    (i : ℕ) × (e : ArptArp) × (get_elem? table i ≡ some e)
    × (is_for ip e ≡ true)
    × (e.ethaddr ≡ mac)

-- How output ends.
abbrev pub Outcome : NetDevice → ℕ → Sent → Type 0
Outcome dev daddr r =
    ((r.retval ≡ 1) × (r.frame ≡ none))
    ⊎ ((mac : List ℕ) × (r.retval ≡ 0)
        × (r.frame ≡ some (mac, dev.hwaddr))
        × Holds (next_hop dev daddr) r.state.table mac)

module _ (clock : ℕ → ℕ) (learn : ℕ → List ArptArp → List ArptArp) (alloc : ℕ → Bool)
    (dev : NetDevice) (ip : ℕ) where
  pushed :
      (o : Option ArpPacket) (s : ArpState) → length (link_output o s).output ≤ length s.output + 1
  pushed none s = omega arith
  pushed (some p) s = omega (arith, length-append s.output (p ∷ []))

  request_one :
      (b : Bool) (s : ArpState) → length (arp_request b dev ip s).output ≤ length s.output + 1
  unfolding arp_request arp_create
  request_one b s = pushed _ s

  resolve_bound :
      (left k : ℕ) (s : ArpState)
      → length (resolve clock learn alloc dev ip left k s).state.output ≤ length s.output + left
  unfolding resolve
  resolve_bound zero k s = omega arith
  resolve_bound (suc left) k s =
      let t = (arp_find_entry (clock k) ip s.table).table in
      let asked = arp_request (alloc k) dev ip (record s { table = t }) in
      let rest = resolve_bound left (suc k) (record asked { table = learn k asked.table }) in
      ground (arith, rest, request_one (alloc k) (record s { table = t }))

  -- What a search gave is in the table.
  search-Holds :
      (now : ℕ) (t : List ArptArp) (mac : List ℕ)
      → address_at (arp_find_entry now ip t).found (arp_find_entry now ip t).table ≡ some mac
      → Holds ip (arp_find_entry now ip t).table mac
  search-Holds now t mac e = elim (arp_find_entry-Finds now ip t) [
    | inl (none_found, _) ↦ absurd (ground (arith, rw none_found at e))
    | inr (xs, q, ys, found, splits, _, this) ↦
        let at_place : get_elem? (arp_find_entry now ip t).table (0 + length xs) ≡ some q =
          rw splits (get_elem?-append xs q ys (0 + length xs) (omega arith)) in
        (
          0 + length xs,
          q,
          at_place,
          this,
          hit (arp_find_entry now ip t).table (0 + length xs) q (rw found at e) at_place,
        )
  ]
    where
      hit :
          (u : List ArptArp) (i : ℕ) (q : ArptArp)
          → address_at (some i) u ≡ some mac
          → get_elem? u i ≡ some q
          → q.ethaddr ≡ mac
      hit u i q h k = ground (arith, rw (k, address_at) at h)

  resolve-Holds :
      (left k : ℕ) (s : ArpState) (mac : List ℕ)
      → (resolve clock learn alloc dev ip left k s).ethaddr ≡ some mac
      → Holds ip (resolve clock learn alloc dev ip left k s).state.table mac
  unfolding resolve
  resolve-Holds zero k s mac e = search-Holds (clock k) s.table mac e
  resolve-Holds (suc left) k s mac e =
      elim (Option-cases (arp_find_entry (clock k) ip s.table).found) [
        | inl none_found ↦
            rw (none_found, resolve)
              (resolve-Holds left (suc k) _ mac (rw (none_found, resolve) at e))
        | inr (i, found) ↦
            rw (found, resolve)
              (search-Holds (clock k) s.table mac (rw found (rw (found, resolve) at e)))
      ]

send_to-Outcome :
    (dev : NetDevice) (daddr : ℕ) (s : ArpState) (o : Option (List ℕ))
    → ((mac : List ℕ) → o ≡ some mac → Holds (next_hop dev daddr) s.table mac)
    → Outcome dev daddr (send_to dev s o)
send_to-Outcome dev daddr s none h = inl (refl, refl)
send_to-Outcome dev daddr s (some mac) h = inr (mac, refl, refl, h mac refl)

send_to_state : (dev : NetDevice) (s : ArpState) (o : Option (List ℕ)) → (send_to dev s o).state ≡ s
send_to_state dev s none = refl
send_to_state dev s (some mac) = refl

-- output ends after at most five ARP requests. Either it returns 1 and sends nothing, or it returns
-- 0 and sends the datagram from the device to the Ethernet address of an established entry of the
-- ARP table for the next hop.
pub ether_output-Outcome :
    (clock : ℕ → ℕ) (learn : ℕ → List ArptArp → List ArptArp) (alloc : ℕ → Bool) (dev : NetDevice)
    (daddr : ℕ) (s : ArpState)
    → (length (ether_output clock learn alloc dev daddr s).state.output ≤ length s.output + 5)
      × Outcome dev daddr (ether_output clock learn alloc dev daddr s)
unfolding ether_output
ether_output-Outcome clock learn alloc dev daddr s =
    let r = resolve clock learn alloc dev (next_hop dev daddr) 5 0 s in
    let bound = resolve_bound clock learn alloc dev (next_hop dev daddr) 5 0 s in
    (
      rw (send_to_state dev r.state r.ethaddr) bound,
      send_to-Outcome dev daddr r.state r.ethaddr
          (resolve-Holds clock learn alloc dev (next_hop dev daddr) 5 0 s),
    )
