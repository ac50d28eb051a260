-- ===== src/Tests/Arp.antt =====
-- The ARP table and a packet.
use linux_program_practice.Sip.Arp.{
  ArptArp, ArpPacket, ArpState, NetDevice, arp_established, cleared, arp_find_entry, arp_add_entry,
}
use linux_program_practice.Sip.Arp.Table.{Learned, Full, arp_add_entry-Learned}
use linux_program_practice.Base.{ℕ, ◌≡◌, ◌⊎◌, List, [], ◌∷◌, arith}

abbrev pub old_mac : List ℕ
old_mac = 2 ∷ 0 ∷ 0 ∷ 0 ∷ 0 ∷ 1 ∷ []

abbrev pub new_mac : List ℕ
new_mac = 2 ∷ 0 ∷ 0 ∷ 0 ∷ 0 ∷ 2 ∷ []

abbrev old_entry : ArptArp
old_entry = record { ipaddr = 7; ethaddr = old_mac; ctime = 10; status = arp_established }

abbrev pub small_table : List ArptArp
small_table = old_entry ∷ cleared ∷ []

arp_add_entry-Learned_example :
    Learned 101 9 new_mac (arp_add_entry 100 9 new_mac arp_established small_table)
    ⊎ (Full 9 (arp_find_entry 100 9 small_table).table
        × (arp_add_entry 100 9 new_mac arp_established small_table
            ≡ (arp_find_entry 100 9 small_table).table))
arp_add_entry-Learned_example = arp_add_entry-Learned 100 101 9 new_mac small_table (omega arith)

abbrev pub device : NetDevice
device = record {
  ip_host = 5;
  ip_netmask = 4294967040;
  ip_gw = 1;
  hwaddr = old_mac;
  hwbroadcast = 255 ∷ 255 ∷ 255 ∷ 255 ∷ 255 ∷ 255 ∷ [];
  hwaddr_len = 6;
}

-- A packet of host 9 that asks for or answers host 8, which is not the device.
abbrev pub packet : ℕ → ArpPacket
packet op = record {
  h_dest = 255 ∷ 255 ∷ 255 ∷ 255 ∷ 255 ∷ 255 ∷ [];
  h_source = new_mac;
  ar_op = op;
  ar_sha = new_mac;
  ar_sip = 9;
  ar_tha = [];
  ar_tip = 8;
}

abbrev pub silent : ArpState
silent = record { table = small_table; output = [] }
