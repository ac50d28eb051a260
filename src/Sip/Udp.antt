-- ===== src/Sip/Udp.antt =====
-- LinuxCodeBak/Code/19/sip_udp.c: the UDP control blocks, in lists behind an array, and what they are
-- for: binding, connecting and receiving. Control blocks and `struct sock` are at addresses that
-- malloc gave; a datagram that waits is its address. Every loop runs on fuel.
pub mod Chains
pub mod Listen
pub mod Input
pub mod Remove
use linux_program_practice.Base.{
  ℕ, zero, suc, ◌+◌, ◌-◌, ◌*◌, ◌/◌, ◌%◌, ◌^◌, ◌≤◌, ◌<◌, min, ◌≡◌, refl, sym, ap, subst, ◌∙◌, ◌≢◌,
  ◌↔◌, ◌⊎◌, inl, inr, Bool, true, false, not, ◌&&◌, ◌||◌, Option, none, some, List, [], ◌∷◌, ◌++◌,
  map, append-nil, append_assoc, arith, ltb, leb, ◌==◌, if◌then◌else◌, ltb→lt, lt→ltb, leb→le,
  ==_iff, &&_iff, Bool-cases, Option-cases, ◌>>=◌, >>=-eq-some, length, get_elem?, set, take, drop,
  All, length-append, length-set, get_elem?-set_self, get_elem?-set_ne, All-set, All-get,
  take-append-drop, length-take, length-drop, codes, get_elem?-append, set-append, All-append,
  take-append, drop-append, get_elem?-none, get_elem?-lt, get_elem?-outside,
}
use linux_program_practice.Base.Run.{Run, ret, fault, starved, and_then, read}
use linux_program_practice.Base.Int.{ℤ, negsuc, pos, eqb_ℤ}

-- struct udp_pcb; `prev` is never used.
pub record UdpPcb : Type 0 where
  pub ip_local : ℕ
  pub port_local : ℕ
  pub ip_remote : ℕ
  pub port_remote : ℕ
  pub tos : ℕ
  pub ttl : ℕ
  pub flags : ℕ
  pub sock : Option ℕ
  pub next : Option ℕ

abbrev pub udp_htable_size : ℕ
udp_htable_size = 128

abbrev pub udp_port_range_end : ℕ
udp_port_range_end = 2 ^ 15 - 1

-- `waiting` is the list skb_recv of each struct sock, `posted` how often its semaphore was posted.
pub record Udp : Type 0 where
  pub table : List (Option ℕ)
  pub pcbs : ℕ → Option UdpPcb
  pub index : ℕ
  pub waiting : ℕ → List ℕ
  pub posted : ℕ → ℕ

abbrev pub put_pcb : ℕ → Option UdpPcb → (ℕ → Option UdpPcb) → ℕ → Option UdpPcb
put_pcb a v m b = if b == a then v else m b

-- An assignment to fields of the control block at `a`.
abbrev pub change : ℕ → (UdpPcb → UdpPcb) → Udp → Run Udp
change a f st =
    and_then (read (st.pcbs a)) λ p. ret (record st { pcbs = put_pcb a (some (f p)) st.pcbs })

-- found_a_port
abbrev pub found_a_port : Udp → ℕ × Udp
found_a_port st =
    let index = (st.index + 1) % 2 ^ 32 in (index % 2 ^ 16, record st { index = index })

-- SIP_UDPNew, where malloc gives `a`
unfoldable pub udp_new : Option ℕ → Udp → Option ℕ × Udp
udp_new none st = (none, st)
udp_new (some a) st =
    let pcb : UdpPcb = record {
      ip_local = 0;
      port_local = 0;
      ip_remote = 0;
      port_remote = 0;
      tos = 0;
      ttl = 255;
      flags = 0;
      sock = none;
      next = none;
    } in
    (some a, record st { pcbs = put_pcb a (some pcb) st.pcbs })

-- Whether the control block `a` is in the list from `head` on: the loop looks at all of it.
pub seen_in : ℕ → ℕ → Bool → Option ℕ → (ℕ → Option UdpPcb) → Run Bool
seen_in zero a seen head pcbs = starved
seen_in (suc fuel) a seen none pcbs = ret seen
seen_in (suc fuel) a seen (some b) pcbs =
    and_then (read (pcbs b)) λ p. seen_in fuel a (seen || b == a) p.next pcbs

-- The loop of SIP_UDPBind that looks for a free port: it ends at `head` with the port.
pub choose : ℕ → Option ℕ → ℕ → Udp → Run (Option ℕ × ℕ × Udp)
choose zero head port st = starved
choose (suc fuel) none port st = ret (none, port, st)
choose (suc fuel) (some b) port st =
    if port == udp_port_range_end
    then ret (some b, port, st)
    else and_then (read (st.pcbs b)) λ p.
      let (other, after) = found_a_port st in
      let again =
        and_then (read (get_elem? after.table other)) λ head. choose fuel head other after in
      let on = choose fuel p.next port st in if p.port_local == port then again else on

-- Putting a control block in front of the list of a port.
abbrev pub push : ℕ → ℕ → Udp → Run Udp
push a port st = and_then (read (get_elem? st.table port)) λ head.
    and_then (change a (λ p. record p { next = head }) st)
      λ u. ret (record u { table = set u.table port (some a) })

-- The end of SIP_UDPBind, with the port that is chosen.
abbrev pub take_port : (a : ℕ) → (rebind : Bool) → (port : ℕ) → Udp → Run (ℤ × Udp)
take_port a rebind port st =
    and_then (change a (λ p. record p { port_local = port }) st)
      λ u. if rebind then ret (pos 0, u) else and_then (push a port u) λ v. ret (pos 0, v)

-- The part of SIP_UDPBind for port 0.
abbrev pub take_free_port : ℕ → (a : ℕ) → (rebind : Bool) → Udp → Run (ℤ × Udp)
take_free_port fuel a rebind st =
    let (port, u) = found_a_port st in
    and_then (read (get_elem? u.table port)) λ head. and_then (choose fuel head port u) λ chosen.
      elim chosen.0 [
        | none ↦ take_port a rebind chosen.1 chosen.2
        | some b ↦ ret (negsuc 0, chosen.2)
      ]

-- SIP_UDPBind
unfoldable pub udp_bind : ℕ → (a ipaddr port : ℕ) → Udp → Run (ℤ × Udp)
unfolding seen_in choose
udp_bind fuel a ipaddr port st =
    and_then (read (get_elem? st.table (port % udp_htable_size))) λ head.
      and_then (seen_in fuel a false head st.pcbs) λ rebind.
        and_then (change a (λ p. record p { ip_local = ipaddr }) st)
          λ u. if port == 0 then take_free_port fuel a rebind u else take_port a rebind port u

-- The search of SIP_UDPConnect and of SIP_UDPInput: the first control block of the list with `stop`.
unfoldable pub follow : ℕ → (ℕ → UdpPcb → Bool) → Option ℕ → (ℕ → Option UdpPcb) → Run (Option ℕ)
follow zero stop head pcbs = starved
follow (suc fuel) stop none pcbs = ret none
follow (suc fuel) stop (some b) pcbs =
    and_then (read (pcbs b))
      λ p. let rest = follow fuel stop p.next pcbs in if stop b p then ret (some b) else rest

-- The end of SIP_UDPConnect, where the control block has a port.
abbrev pub connect_to : ℕ → (a ipaddr port : ℕ) → Udp → Run (ℤ × Udp)
connect_to fuel a ipaddr port st =
    and_then (change a (λ p. record p { ip_remote = ipaddr; port_remote = port }) st) λ u.
      and_then (read (u.pcbs a)) λ p. and_then (read (get_elem? u.table p.port_local)) λ head.
        and_then (follow fuel (λ b q. b == a) head u.pcbs) λ found. elim found [
          | some b ↦ ret (pos 0, u)
          | none ↦ and_then (push a p.port_local u) λ v. ret (pos 0, v)
        ]

-- SIP_UDPConnect
unfoldable pub udp_connect : ℕ → (a ipaddr port : ℕ) → Udp → Run (ℤ × Udp)
unfolding follow
udp_connect fuel a ipaddr port st = and_then (read (st.pcbs a)) λ p.
    let unbound =
      and_then (udp_bind fuel a p.ip_local 0 st) λ bound.
        if eqb_ℤ bound.0 (pos 0) then connect_to fuel a ipaddr port bound.1 else ret bound in
    if p.port_local == 0 then unbound else connect_to fuel a ipaddr port st

-- SIP_UDPDisconnect: the flag 0x04 is cleared.
unfoldable pub udp_disconnect : ℕ → Udp → Run Udp
udp_disconnect a st =
    change a
      (λ p. record p { ip_remote = 0; port_remote = 0; flags = p.flags - p.flags / 4 % 2 * 4 }) st

-- The loop of SIP_UDPRemove, at `b`: it goes on behind the control block that it takes out.
pub unlink_pcb : ℕ → (a b : ℕ) → Udp → Run Udp
unlink_pcb zero a b st = starved
unlink_pcb (suc fuel) a b st = and_then (read (st.pcbs b)) λ p. elim p.next [
  | none ↦ ret st
  | some c ↦
      let taken = and_then (read (st.pcbs a)) λ q.
        and_then (change b (λ p. record p { next = q.next }) st)
          λ u. and_then (read q.next) λ d. unlink_pcb fuel a d u in
      let on = unlink_pcb fuel a c st in if c == a then taken else on
]

-- The lists without the control block, as SIP_UDPRemove has them before it frees it.
abbrev pub take_out : ℕ → (a : ℕ) → (head : Option ℕ) → UdpPcb → Udp → Run Udp
take_out fuel a none p st = ret st
take_out fuel a (some b) p st =
    if b == a
    then ret (record st { table = set st.table (p.port_local % udp_htable_size) p.next })
    else unlink_pcb fuel a b st

-- SIP_UDPRemove
unfoldable pub udp_remove : ℕ → Option ℕ → Udp → Run Udp
unfolding unlink_pcb
udp_remove fuel none st = ret st
udp_remove fuel (some a) st = and_then (read (st.pcbs a)) λ p.
    and_then (read (get_elem? st.table (p.port_local % udp_htable_size))) λ head.
      and_then (take_out fuel a head p st) λ u. ret (record u { pcbs = put_pcb a none u.pcbs })

abbrev pub post : ℕ → List ℕ → Udp → Udp
post s queue st = record st {
  waiting = λ r. if r == s then queue else st.waiting r;
  posted = λ r. if r == s then st.posted s + 1 else st.posted r;
}

-- The loop that should go to the end of the list of datagrams: it moves on in the list of control
-- blocks instead.
unfoldable pub wander : ℕ → Option ℕ → (ℕ → Option UdpPcb) → Run Udp
wander zero b pcbs = starved
wander (suc fuel) none pcbs = fault
wander (suc fuel) (some b) pcbs = and_then (read (pcbs b)) λ p. wander fuel p.next pcbs

-- SIP_UDPInput behind the search: the datagram `skb` for the struct sock of a control block, at which
-- others wait.
abbrev pub enqueue : ℕ → (skb b s : ℕ) → (queue : List ℕ) → Udp → Run Udp
enqueue fuel skb b s [] st = ret (post s (skb ∷ []) st)
enqueue fuel skb b s (first ∷ []) st = ret (post s (first ∷ skb ∷ []) st)
enqueue fuel skb b s (first ∷ second ∷ more) st = wander fuel (some b) st.pcbs

-- The rest of SIP_UDPInput, with the control block that is found.
abbrev pub receive : ℕ → (skb : ℕ) → Udp → Option ℕ → Run (Option ℤ × Udp)
receive fuel skb st none = ret (some (pos 0), st)
receive fuel skb st (some b) = and_then (read (st.pcbs b)) λ p. elim p.sock [
  | none ↦ ret (some (pos 1), st)
  | some s ↦ and_then (enqueue fuel skb b s (st.waiting s) st) λ u. ret (none, u)
]

-- SIP_UDPInput. It returns nothing where it has put a datagram into a list.
unfoldable pub udp_input : ℕ → (port skb : ℕ) → Udp → Run (Option ℤ × Udp)
unfolding follow wander
udp_input fuel port skb st = and_then (read (get_elem? st.table (port % udp_htable_size))) λ head.
    and_then (follow fuel (λ b p. p.port_local == port) head st.pcbs)
      λ found. receive fuel skb st found
