-- ===== src/Sip.antt =====
-- The protocol stack of chapter 19 (LinuxCodeBak/Code/19), by component.
pub mod Arp
pub mod Checksum
pub mod Pseudo
pub mod Ip
pub mod Frag
pub mod Reassembly
pub mod Icmp
pub mod Ether
pub mod Socket
pub mod Udp
pub mod Calls
