-- ===== src/Sipfw/Types.antt =====
-- LinuxCode/20/sipfw/module/sipfw.h and sipfw_para.h: the structures, constants and name tables.
-- `ifname` of a rule is never set nor read, and is left out. The kernel's own structures (sk_buff,
-- iphdr, tcphdr, igmphdr) are records of the fields that the filter reads.
use Prim.Native.String.{String}
use linux_program_practice.Base.{ℕ, ◌/◌, ◌%◌, ◌^◌, List, [], ◌∷◌, Option, none, some}
use linux_program_practice.Base.Int.{ℤ, pos}

-- struct sipfw_rules. `addr` is the address that kmalloc gave the node, and `addtion` the 32 bits
-- of the union of that name.
pub record Rule : Type 0 where
  pub addr : ℕ
  pub chain : ℤ
  pub source : ℕ
  pub dest : ℕ
  pub sport : ℕ
  pub dport : ℕ
  pub protocol : ℕ
  pub action : ℤ
  pub addtion : ℕ

-- The views of `union addtion` through its other members, on a little-endian machine, where the
-- first bit field of a unit is the lowest: struct icgmp_flag has `valid` in byte 0, and struct
-- tcp_flag has res1 and doff in byte 0 and fin, syn, rst, psh, ack from bit 8 on.
abbrev pub icgmp_type : ℕ → ℕ
icgmp_type v = v / 2 ^ 8 % 2 ^ 8

abbrev pub icgmp_code : ℕ → ℕ
icgmp_code v = v / 2 ^ 16 % 2 ^ 8

abbrev pub tcp_fin : ℕ → ℕ
tcp_fin v = v / 2 ^ 8 % 2

abbrev pub tcp_syn : ℕ → ℕ
tcp_syn v = v / 2 ^ 9 % 2

abbrev pub tcp_ack : ℕ → ℕ
tcp_ack v = v / 2 ^ 12 % 2

-- struct sipfw_list, with the nodes from `rule` on along `next`.
pub record RuleList : Type 0 where
  pub rules : List Rule
  pub number : ℤ

-- struct sipfw_conf. A path is its bytes before the terminating zero; `hit_number` is the 32-bit
-- pattern of the counter.
pub record Conf : Type 0 where
  pub default_action : ℕ
  pub rule_file_path : List ℕ
  pub log_file_path : List ℕ
  pub hit_number : ℕ
  pub invalid : ℤ
  pub log_pause : ℤ

-- struct tm
pub record Tm : Type 0 where
  pub sec : ℕ
  pub min : ℕ
  pub hour : ℕ
  pub mday : ℕ
  pub mon : ℕ
  pub year : ℕ

-- struct sipfw_cmd_opts: each member is the 32-bit word of its union.
pub record CmdOpts : Type 0 where
  pub command : ℕ
  pub source : ℕ
  pub dest : ℕ
  pub sport : ℕ
  pub dport : ℕ
  pub protocol : ℕ
  pub chain : ℕ
  pub action : ℕ
  pub addtion : ℕ
  pub number : ℕ

abbrev pub ipproto_icmp : ℕ
ipproto_icmp = 1

abbrev pub ipproto_igmp : ℕ
ipproto_igmp = 2

abbrev pub ipproto_tcp : ℕ
ipproto_tcp = 6

abbrev pub ipproto_udp : ℕ
ipproto_udp = 17

pub record IpHdr : Type 0 where
  pub saddr : ℕ
  pub daddr : ℕ
  pub protocol : ℕ

pub record TcpHdr : Type 0 where
  pub source : ℕ
  pub dest : ℕ
  pub ack : ℕ
  pub fin : ℕ
  pub syn : ℕ

pub record IgmpHdr : Type 0 where
  pub kind : ℕ
  pub code : ℕ

-- A packet: its IP header, and the bytes at `data + ihl * 4` read through either header.
pub record SkBuff : Type 0 where
  pub iph : IpHdr
  pub tcph : TcpHdr
  pub igmph : IgmpHdr

-- The anonymous enumeration of sipfw.h.
abbrev pub cmd_insert : ℤ
cmd_insert = pos 0

abbrev pub cmd_delete : ℤ
cmd_delete = pos 1

abbrev pub cmd_append : ℤ
cmd_append = pos 2

abbrev pub cmd_list : ℤ
cmd_list = pos 3

abbrev pub cmd_flush : ℤ
cmd_flush = pos 4

abbrev pub cmd_replace : ℤ
cmd_replace = pos 5

abbrev pub action_drop : ℕ
action_drop = 0

abbrev pub action_accept : ℕ
action_accept = 1

abbrev pub action_stolen : ℕ
action_stolen = 2

abbrev pub chain_input : ℕ
chain_input = 0

abbrev pub chain_output : ℕ
chain_output = 1

abbrev pub chain_forward : ℕ
chain_forward = 2

abbrev pub chain_all : ℕ
chain_all = 3

-- sipfw_action_name. The entry behind the last name holds a null pointer.
abbrev pub sipfw_action_name : List (Option String)
sipfw_action_name =
    some "DROP" ∷ some "ACCEPT" ∷ some "STOLEN" ∷ some "QUEUE" ∷ some "REPEAT" ∷ none ∷ []

-- sipfw_protocol_name: the names with the protocol numbers in `value`.
abbrev pub sipfw_protocol_name : List (String × ℕ)
sipfw_protocol_name =
    ("tcp", ipproto_tcp)
    ∷ ("udp", ipproto_udp)
    ∷ ("icmp", ipproto_icmp)
    ∷ ("igmp", ipproto_igmp)
    ∷ []
