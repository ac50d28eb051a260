-- ===== src/Tests.antt =====
-- The theorems about the program, applied at concrete inputs.
mod Data
mod Filter
mod Tables
mod Netlink
mod Files
mod Kernel
mod App
mod Arp
mod Uri
mod Sockets
mod Ether
mod Ip
mod Workers
mod Requests
mod Parameters
mod Udp
mod RequestLine
mod Frag
mod Ping
mod Pseudo
mod Reassembly
mod Response
mod Calls
