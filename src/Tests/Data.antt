-- ===== src/Tests/Data.antt =====
-- The rules, tables, packets and files that the tests share.
use linux_program_practice.Base.{ℕ, ◌&&◌, List, [], ◌∷◌, leb, some}
use linux_program_practice.Base.Int.{pos}
use linux_program_practice.Sipfw.Types.{Rule, RuleList, Conf, SkBuff}
use linux_program_practice.Sipfw.Memory.{Live}
use linux_program_practice.Sipfw.Tables.{Store}
use linux_program_practice.Sipfw.Netlink.{Buffer, roomy, Channel, Request}

-- A rule for TCP packets to a port.
abbrev pub port_rule : ℕ → ℕ → ℕ → Rule
port_rule addr port action = record {
  addr = addr;
  chain = pos 0;
  source = 0;
  dest = 0;
  sport = 0;
  dport = port;
  protocol = 6;
  action = pos action;
  addtion = 0;
}

abbrev pub ssh_rule : Rule
ssh_rule = port_rule 100 22 0

abbrev pub web_rule : Rule
web_rule = port_rule 101 80 1

abbrev pub mail_rule : Rule
mail_rule = port_rule 102 25 0

-- The node of a request.
abbrev pub request_rule : Rule
request_rule = port_rule 200 80 1

abbrev pub no_rule : RuleList
no_rule = record { rules = []; number = pos 0 }

abbrev pub input_chain : RuleList
input_chain = record { rules = ssh_rule ∷ web_rule ∷ mail_rule ∷ []; number = pos 3 }

abbrev pub three_tables : List RuleList
three_tables = input_chain ∷ no_rule ∷ no_rule ∷ []

abbrev pub some_live : Live
some_live a = leb 100 a && leb a 200

abbrev pub three_store : Store
three_store = record { tables = three_tables; live = some_live }

abbrev pub always_roomy : ℕ → Buffer
always_roomy n = roomy

abbrev pub quiet : Channel
quiet = record { store = three_store; sent = [] }

-- A TCP packet to port 80 with the flags of a rule ignored.
abbrev pub web_packet : SkBuff
web_packet = record {
  iph = record { saddr = 16909060; daddr = 168496141; protocol = 6 };
  tcph = record { source = 40000; dest = 80; ack = 0; fin = 0; syn = 1 };
  igmph = record { kind = 0; code = 0 };
}

-- The configuration with its log paused or not.
abbrev pub conf_with : ℕ → Conf
conf_with pause = record {
  default_action = 0;
  rule_file_path = [];
  log_file_path = [];
  hit_number = 7;
  invalid = pos 0;
  log_pause = pos pause;
}

-- A request to append a rule for port 443.
abbrev pub append_request : Request
append_request = record {
  opts = record {
    command = 2;
    source = 0;
    dest = 0;
    sport = 0;
    dport = 443;
    protocol = 6;
    chain = 0;
    action = 1;
    addtion = 0;
    number = 4294967295;
  };
  pid = 77;
  kmalloc = some 300;
  junk_dest = 0;
}
