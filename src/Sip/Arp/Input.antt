-- ===== src/Sip/Arp/Input.antt =====
-- arp_input of LinuxCodeBak/Code/19/sip_arp.c.
use linux_program_practice.Sip.Arp.{
  ArpPacket, ArpState, NetDevice, ArptArp, arp_input, arp_create, arpop_request, arpop_reply,
  arp_live_time, sizeof_arphdr, arp_add_entry, arp_established,
}
use linux_program_practice.Sip.Arp.Table.{Learned, Full, arp_add_entry-Learned}
use linux_program_practice.Base.{
  ℕ, ◌+◌, ◌≤◌, ◌≡◌, sym, subst, ◌⊎◌, inl, inr, Bool, true, false, List, [], ◌∷◌, ◌++◌, arith, ltb,
  ◌==◌, take,
}

-- The reply of `dev` to the sender of `p`.
abbrev pub reply_to : ArpPacket → NetDevice → ArpPacket
reply_to p dev = record {
  h_dest = p.h_source;
  h_source = dev.hwaddr;
  ar_op = arpop_reply;
  ar_sha = dev.hwaddr;
  ar_sip = dev.ip_host;
  ar_tha = take dev.hwaddr_len p.ar_sha;
  ar_tip = p.ar_sip;
}

-- The table knows the sender of `p`, or was full of other addresses.
abbrev pub KnowsSender : ℕ → ArpPacket → ArpState → Type 0
KnowsSender later p s = Learned later p.ar_sip p.h_source s.table ⊎ Full p.ar_sip s.table

-- After an address was added, the table has learned it or was full of others.
pub known :
    (now later ip : ℕ) (hw : List ℕ) (t : List ArptArp)
    → now ≤ later + arp_live_time
    → Learned later ip hw (arp_add_entry now ip hw arp_established t)
      ⊎ Full ip (arp_add_entry now ip hw arp_established t)
known now later ip hw t clock = elim (arp_add_entry-Learned now later ip hw t clock) [
  | inl learned ↦ inl learned
  | inr (full, same) ↦ inr (subst (Full ip) (sym same) full)
]

module _ (now later tot_len : ℕ) (p : ArpPacket) (dev : NetDevice) (s : ArpState)
    (clock : now ≤ later + arp_live_time) (whole : sizeof_arphdr ≤ tot_len) where
  -- Where buffers can be allocated, a whole ARP request is answered with the address of the device
  -- whatever host it asks for, and its sender is in the table, unless that has neither an entry for
  -- the sender nor an empty one.
  pub arp_input-reply_to :
      p.ar_op ≡ arpop_request
      → ((arp_input now true tot_len p dev s).output ≡ s.output ++ reply_to p dev ∷ [])
        × KnowsSender later p (arp_input now true tot_len p dev s)
  unfolding arp_input arp_create
  arp_input-reply_to op =
      let long : ltb tot_len sizeof_arphdr ≡ false = ground arith in
      let asked : (p.ar_op == arpop_request) ≡ true = ground arith in
      (rw (long, asked), rw (long, asked) (known now later p.ar_sip p.h_source _ clock))

  -- A whole ARP reply is not answered, and its sender is in the table, unless that has neither an
  -- entry for the sender nor an empty one.
  pub arp_input-KnowsSender :
      (alloc : Bool)
      → p.ar_op ≡ arpop_reply
      → ((arp_input now alloc tot_len p dev s).output ≡ s.output)
        × KnowsSender later p (arp_input now alloc tot_len p dev s)
  unfolding arp_input
  arp_input-KnowsSender alloc op =
      let long : ltb tot_len sizeof_arphdr ≡ false = ground arith in
      let no_request : (p.ar_op == arpop_request) ≡ false = ground arith in
      let replied : (p.ar_op == arpop_reply) ≡ true = ground arith in
      (
        rw (long, no_request, replied),
        rw (long, no_request, replied) (known now later p.ar_sip p.h_source _ clock),
      )
