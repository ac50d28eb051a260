-- ===== src/Sipfw/Netlink.antt =====
-- LinuxCode/20/sipfw/module/sipfw_k_nl.c: the messages to user space, the listing of rules, the
-- dispatch of a request (SIPFW_NLDoAction) and the receive loop (SIPFW_NLInput).
-- A request carries, besides its words, what the kernel supplies while it is handled: the address
-- that kmalloc returns (`none` where it fails) and the bytes that the new node's `dest` holds,
-- which the code never writes. netlink_unicast is taken to deliver what it is given.
pub mod Dispatch
pub mod Listing
pub mod History
use linux_program_practice.Sipfw.Memory.{mark}
use linux_program_practice.Base.{
  ℕ, zero, suc, ◌+◌, ◌-◌, ◌%◌, ◌^◌, true, ◌&&◌, Option, none, some, List, [], ◌∷◌, ◌++◌, leb,
  if◌then◌else◌, ◌>>=◌, not,
}
use linux_program_practice.Base.Int.{ℤ, pos, negsuc, eqb_ℤ, signed32, succ}
use linux_program_practice.Sipfw.Types.{
  Rule, RuleList, CmdOpts, chain_all, cmd_insert, cmd_delete, cmd_replace, cmd_append, cmd_list,
  cmd_flush,
}
use linux_program_practice.Sipfw.Tables.{
  Store, table_at, free_rule, rule_insert, rule_delete, rule_replace, rule_addpend, rule_flush,
}
use Prim.Native.String.{String}

-- What a message to user space holds.
pub data Body : Type 0 where
  count : ℕ → Body
  entry : Rule → Body
  text : String → Body

pub record Message : Type 0 where
  pub pid : ℕ
  pub kind : ℕ
  pub body : Body

abbrev pub msg_rule : ℕ
msg_rule = 1

abbrev pub msg_failure : ℕ
msg_failure = 3

abbrev pub msg_success : ℕ
msg_success = 4

-- The buffer that alloc_skb(len) gives: none, one in which NLMSG_SPACE(len) bytes do not fit, so
-- that NLMSG_PUT jumps to `nlmsg_failure`, or one in which they do.
pub data Buffer : Type 0 where
  refused tight roomy : Buffer

-- The state of the netlink side: the tables and what was sent, latest last.
pub record Channel : Type 0 where
  pub store : Store
  pub sent : List Message

pub record Request : Type 0 where
  pub opts : CmdOpts
  pub pid : ℕ
  pub kmalloc : Option ℕ
  pub junk_dest : ℕ

-- A received packet: its length, the length in its netlink header, and the request in its payload.
pub record Datagram : Type 0 where
  pub len : ℕ
  pub nlmsg_len : ℕ
  pub request : Request

-- sizeof(struct nlmsghdr), sizeof(unsigned int), and sizeof(struct sipfw_rules) on a 32-bit machine.
abbrev pub sizeof_nlmsghdr : ℕ
sizeof_nlmsghdr = 16

abbrev pub sizeof_count : ℕ
sizeof_count = 4

abbrev pub sizeof_rule : ℕ
sizeof_rule = 40

-- An `int` read as an `unsigned int`.
abbrev pub to_u32 : ℤ → ℕ
to_u32 (pos n) = n % 2 ^ 32
to_u32 (negsuc n) = 2 ^ 32 - 1 - n % 2 ^ 32

-- The new node that SIPFW_NLDoAction fills in from a request. `source` is assigned twice, and `dest`
-- not at all; the ports and the protocol are cut to the width of their fields.
unfoldable pub new_rule : ℕ → Request → Rule
new_rule addr q = record {
  addr = addr;
  chain = signed32 q.opts.chain;
  source = q.opts.source;
  dest = q.junk_dest;
  sport = q.opts.sport % 2 ^ 16;
  dport = q.opts.dport % 2 ^ 16;
  protocol = q.opts.protocol % 2 ^ 8;
  action = signed32 q.opts.action;
  addtion = q.opts.addtion;
}

-- The number of rules that is sent ahead of the rules: a sum of `int`s as an `unsigned int`.
unfoldable pub rule_count : List RuleList → ℤ → Option ℕ
rule_count tables chain =
    if eqb_ℤ chain (pos chain_all)
    then (do
      l ← table_at tables (pos 0)
      m ← table_at tables (pos 1)
      n ← table_at tables (pos 2)
      some ((to_u32 l.number + to_u32 m.number + to_u32 n.number) % 2 ^ 32))
    else (do l ← table_at tables chain; some (to_u32 l.number))

abbrev pub on_store : Channel → Option Store → Option Channel
on_store c none = none
on_store c (some s) = some (record c { store = s })

abbrev pub allocated : ℕ → Channel → Channel
allocated addr c = record c {
  store = record { tables = c.store.tables; live = mark addr true c.store.live };
}

module _ (room : ℕ → Buffer) where
  -- SIPFW_NLSendToUser, for a body of `len` bytes. Its result is not read by any caller.
  unfoldable pub nl_send_to_user : ℕ → ℕ → ℕ → Body → Channel → Option Channel
  nl_send_to_user pid len kind body c = elim (room len) [
    | refused ↦ none
    | tight ↦ some c
    | roomy ↦
        some (record c { sent = c.sent ++ record { pid = pid; kind = kind; body = body } ∷ [] })
  ]

  -- The inner loop of SIPFW_NLAction_RuleList.
  unfoldable pub send_rules : ℕ → List Rule → Channel → Option Channel
  send_rules pid [] c = some c
  send_rules pid (cur ∷ rest) c = do
    d ← nl_send_to_user pid sizeof_rule msg_rule (entry cur) c
    send_rules pid rest d

  -- The outer loop, over the chains i … i + n - 1.
  unfoldable pub send_chains : ℕ → ℕ → ℤ → Channel → Option Channel
  send_chains pid zero i c = some c
  send_chains pid (suc n) i c = do
    l ← table_at c.store.tables i
    d ← send_rules pid l.rules c
    send_chains pid n (succ i) d

  -- SIPFW_NLAction_RuleList
  unfoldable pub rule_list : Rule → ℕ → Channel → Option Channel
  unfolding rule_count
  rule_list rule pid c = do
    n ← rule_count c.store.tables rule.chain
    d ← nl_send_to_user pid sizeof_count msg_rule (count n) c
    e ←
        (if eqb_ℤ rule.chain (pos chain_all)
          then send_chains pid 3 (pos 0) d
          else send_chains pid 1 rule.chain d)
    on_store e (free_rule rule e.store)

  -- The reply that ends each case but LIST: the handlers all return 0, so it is always SUCCESS.
  abbrev pub reply : ℕ → Channel → Option Store → Option Channel
  reply pid c o = on_store c o >>= nl_send_to_user pid 8 msg_success (text "SUCCESS")

  -- The `switch` of SIPFW_NLDoAction on `cmd`, with the new node.
  unfoldable pub dispatch : ℤ → ℤ → Rule → ℕ → Channel → Option Channel
  dispatch cmd number rule pid c =
      if eqb_ℤ cmd cmd_insert
      then reply pid c (rule_insert rule number c.store)
      else if eqb_ℤ cmd cmd_delete
      then reply pid c (rule_delete rule number c.store)
      else if eqb_ℤ cmd cmd_replace
      then reply pid c (rule_replace rule number c.store)
      else if eqb_ℤ cmd cmd_append
      then reply pid c (rule_addpend rule c.store)
      else if eqb_ℤ cmd cmd_list
      then rule_list rule pid c
      else if eqb_ℤ cmd cmd_flush
      then reply pid c (rule_flush rule c.store)
      else some c

  -- SIPFW_NLDoAction. Where kmalloc fails, the code prints a message and goes on to write through
  -- the null pointer.
  unfoldable pub nl_do_action : Request → Channel → Option Channel
  nl_do_action q c = elim q.kmalloc [
    | none ↦ none
    | some addr ↦
        dispatch (signed32 q.opts.command) (signed32 q.opts.number) (new_rule addr q) q.pid
          (allocated addr c)
  ]

  -- One round of the loop of SIPFW_NLInput: the request of a packet of proper lengths is handled.
  unfoldable pub nl_receive : Datagram → Channel → Option Channel
  nl_receive p c =
      if leb sizeof_nlmsghdr p.len
      then (if leb sizeof_nlmsghdr p.nlmsg_len && leb p.nlmsg_len p.len
          then nl_do_action p.request c
          else some c)
      else some c

  -- SIPFW_NLInput, over the packets in the receive queue.
  unfoldable pub nl_input : List Datagram → Channel → Option Channel
  nl_input [] c = some c
  nl_input (p ∷ ps) c = do d ← nl_receive p c; nl_input ps d
