-- ===== src/Tests/Ether.antt =====
-- Frames for the device, and a datagram to send.
use linux_program_practice.Base.{
  ℕ, ◌+◌, ◌≤◌, ◌≡◌, refl, true, some, List, [], ◌==◌, if◌then◌else◌, length,
}
use linux_program_practice.Tests.Arp.{device, small_table, new_mac, old_mac, packet}
use linux_program_practice.Tests.Ip.{header}
use linux_program_practice.Sip.Arp.{and_bits, ArptArp, ArpState, arp_add_entry, arp_established}
use linux_program_practice.Sip.Ip.{ip_accept, ip_is_broadcast, to_udp, SipIphdr, iph_of}
use linux_program_practice.Sip.Checksum.{chksum, chksum_standard}
use linux_program_practice.Sip.Ether.{
  Frame, Taken, ether_input, ether_output, samemac, ether_switch,
}
use linux_program_practice.Sip.Ether.Resolve.{Outcome, ether_output-Outcome}

abbrev silent : ArpState
silent = record { table = small_table; output = [] }

abbrev frame : ℕ → Frame
frame proto = record {
  n = 34;
  h_dest = old_mac;
  h_source = new_mac;
  h_proto = proto;
  arp = packet 1;
  raw = header;
}

-- Host 8 is in the net of the device, and answers after the second request.
abbrev answers : ℕ → List ArptArp → List ArptArp
answers k t = if k == 1 then arp_add_entry 102 8 new_mac arp_established t else t

ether_output-Outcome_example :
    (length (ether_output (λ k. 100 + k) answers (λ k. true) device 8 silent).state.output ≤ 5)
    × Outcome device 8 (ether_output (λ k. 100 + k) answers (λ k. true) device 8 silent)
ether_output-Outcome_example =
    ether_output-Outcome (λ k. 100 + k) answers (λ k. true) device 8 silent

abbrev taken : Taken
taken = record {
  arp = record silent { table = arp_add_entry 100 33554442 new_mac arp_established small_table };
  ip = some to_udp;
}

frame_taken : ether_input 100 true true (frame 2048) device silent ≡ some taken
unfolding ether_input ether_switch samemac ip_accept iph_of chksum ip_is_broadcast chksum_standard
    and_bits
frame_taken = refl

abbrev header_iph : SipIphdr
header_iph = record {
  ihl = 5;
  version = 4;
  tos = 0;
  tot_len = 5120;
  id = 256;
  frag_off = 0;
  ttl = 64;
  protocol = 17;
  check = 55147;
  saddr = 33554442;
  daddr = 5;
}

header_read : iph_of header ≡ some header_iph
unfolding iph_of
header_read = refl

for_device : samemac old_mac device.hwaddr ≡ true
unfolding samemac
for_device = refl
