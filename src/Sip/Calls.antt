-- ===== src/Sip/Calls.antt =====
-- LinuxCodeBak/Code/19/sip_socket.c and sip_sock.c: sip_bind, sip_connect, sip_recvfrom, sip_recv,
-- sip_send and sip_sendto, over the table of sockets (Sip/Socket) and the UDP control blocks (Sip/Udp).
-- SIP_SockBind and SIP_SockConnect return no value: what their callers get is a parameter. Where
-- SIP_UDPSendTo would be called with fewer arguments than it has, or an address is null that is read,
-- the result is a fault.
pub mod Inert
pub mod Receive
use linux_program_practice.Sip.Checksum.{htons}
use linux_program_practice.Sip.Udp.{Udp, udp_bind, udp_connect}
use linux_program_practice.Base.Int.{ℤ, negsuc, pos, eqb_ℤ}
use linux_program_practice.Sip.Socket.{SipSocket, Sock, Stack, put_sock, sock_dgram, get_socket}
use linux_program_practice.Base.Run.{Run, and_then, ret, read, fault}
use mathlib.Core.Option
use linux_program_practice.Base.{
  ℕ, zero, suc, ◌+◌, ◌-◌, ◌*◌, ◌/◌, ◌%◌, ◌^◌, ◌≤◌, ◌<◌, min, ◌≡◌, refl, sym, ap, subst, ◌∙◌, ◌≢◌,
  ◌↔◌, ◌⊎◌, inl, inr, Bool, true, false, not, ◌&&◌, ◌||◌, Option, none, some, List, [], ◌∷◌, ◌++◌,
  map, append-nil, append_assoc, arith, ltb, leb, ◌==◌, if◌then◌else◌, ltb→lt, lt→ltb, leb→le,
  ==_iff, &&_iff, Bool-cases, Option-cases, ◌>>=◌, >>=-eq-some, length, get_elem?, set, take, drop,
  All, length-append, length-set, get_elem?-set_self, get_elem?-set_ne, All-set, All-get,
  take-append-drop, length-take, length-drop, codes, get_elem?-append, set-append, All-append,
  take-append, drop-append, get_elem?-none, get_elem?-lt, get_elem?-outside,
}

-- A datagram as far as the receiving reads it: its bytes from `data` on, `len`, and where it is from.
pub record Skb : Type 0 where
  pub bytes : List ℕ
  pub len : ℕ
  pub saddr : ℕ
  pub source : ℕ

-- `skbs` is what is allocated of datagrams.
pub record Host : Type 0 where
  pub stack : Stack
  pub udp : Udp
  pub skbs : ℕ → Option Skb

-- sock->err = err, where the struct sock at `a` is `k`.
abbrev pub set_err : ℕ → Sock → ℤ → Stack → Stack
set_err a k err st = record st { socks = put_sock a (some (record k { err = err })) st.socks }

-- The control block of a datagram socket; the other types do nothing with theirs.
abbrev pub datagram : Sock → ℕ → (ℕ → Run Host) → Host → Run Host
datagram k pcb act h = if k.kind == sock_dgram then act pcb else ret h

-- SIP_SockBind, by the control block of the struct sock
abbrev pub bind_pcb : ℕ → (a addr port : ℕ) → Host → Sock → Option ℕ → Run Host
bind_pcb fuel a addr port h k none = ret (record h { stack = set_err a k (negsuc 0) h.stack })
bind_pcb fuel a addr port h k (some pcb) =
    datagram k pcb
      (λ p.
        and_then (udp_bind fuel p addr port h.udp)
          λ r. ret (record h { stack = set_err a k r.0 h.stack; udp = r.1 }))
      h

-- SIP_SockBind
unfoldable pub sock_bind : ℕ → (a addr port : ℕ) → Host → Run Host
sock_bind fuel a addr port h =
    and_then (read (h.stack.socks a)) λ k. bind_pcb fuel a addr port h k k.pcb

-- SIP_SockConnect
unfoldable pub sock_connect : ℕ → (a addr port : ℕ) → Host → Run Host
sock_connect fuel a addr port h = and_then (read (h.stack.socks a)) λ k. elim k.pcb [
  | none ↦ ret h
  | some pcb ↦
      datagram k pcb
        (λ p.
          and_then (udp_connect fuel p addr port h.udp)
            λ r. ret (record h { stack = set_err a k r.0 h.stack; udp = r.1 }))
        h
]

-- SIP_SockSendTo, but for what it returns, which nothing reads
unfoldable pub sock_send_to : ℕ → Host → Run Host
sock_send_to a h =
    and_then (read (h.stack.socks a))
      λ k. elim k.pcb [ none ↦ ret h | some pcb ↦ datagram k pcb (λ p. fault) h ]

-- What follows get_socket in each call: -1 for a descriptor that it refuses.
abbrev pub on_socket : {A : Type 0} → ℤ → Stack → Run A → (ℕ × ℕ → Run A) → Run A
on_socket s st refused act =
    and_then (read (get_socket s st)) λ found. elim found [ none ↦ refused | some ia ↦ act ia ]

-- sip_bind; `left` is what the caller finds in place of the value of SIP_SockBind.
unfoldable pub sip_bind : ℕ → (left : ℤ) → (s : ℤ) → (addr port : ℕ) → Host → Run (ℤ × Host)
sip_bind fuel left s addr port h = on_socket s h.stack (ret (negsuc 0, h)) λ ia.
    and_then (sock_bind fuel ia.1 addr (htons port) h)
      λ g. ret (if eqb_ℤ left (pos 0) then pos 0 else negsuc 0, g)

-- sip_connect
unfoldable pub sip_connect : ℕ → (s : ℤ) → (addr port : ℕ) → Host → Run (ℤ × Host)
sip_connect fuel s addr port h =
    on_socket s h.stack (ret (negsuc 0, h))
      λ ia. and_then (sock_connect fuel ia.1 addr (htons port) h) λ g. ret (pos 0, g)

-- sip_sendto, where there is memory; `to` is the address, if it is not null.
unfoldable pub sip_sendto : (s : ℤ) → (len : ℕ) → (to : Option ℕ) → Host → Run (ℤ × Host)
sip_sendto s len to h = and_then (read to) λ addr.
    on_socket s h.stack (ret (negsuc 0, h))
      λ ia. and_then (sock_send_to ia.1 h) λ g. ret (pos len, g)

-- sip_send
unfoldable pub sip_send : (s : ℤ) → (len : ℕ) → Host → Run (ℤ × Host)
unfolding sip_sendto
sip_send s len h = on_socket s h.stack (ret (negsuc 0, h)) λ ia. sip_sendto s len none h

-- What a call that may wait does.
pub data Received : Type 0 where
  waits : Received
  refused : Received
  -- All that is left of the datagram, from its data.
  whole : (bytes : List ℕ) → (saddr source : ℕ) → Received
  -- `len` bytes that stand `offset` times the size of struct skbuff behind the struct at `skb`.
  beside : (skb offset len : ℕ) → (saddr source : ℕ) → Received

-- The semaphore of a struct sock is taken once, and `queue` is what then waits there.
abbrev pub took : ℕ → List ℕ → Host → Host
took a queue h = record h {
  udp = record h.udp {
    waiting = λ b. if b == a then queue else h.udp.waiting b;
    posted = λ b. if b == a then h.udp.posted a - 1 else h.udp.posted b;
  };
}

abbrev pub take_first : ℕ → Host → List ℕ → Option ℕ × Host
take_first a h [] = (none, took a [] h)
take_first a h (first ∷ rest) = (some first, took a rest h)

-- SIP_SockRecv: sem_getvalue gives 0, so that sem_wait follows. `none` is to wait; the datagram that
-- is taken may be null.
unfoldable pub sock_recv : ℕ → Host → Option (Option ℕ × Host)
sock_recv a h = if h.udp.posted a == 0 then none else some (take_first a h (h.udp.waiting a))

abbrev pub set_socket : ℕ → SipSocket → Host → Host
set_socket i e h = record h { stack = record h.stack { sockets = set h.stack.sockets i e } }

-- The copying of sip_recvfrom from the datagram at `b`, of which `offset` bytes are read. `len` is a
-- size_t, the rest an int; where it is negative, it is a large size_t.
abbrev pub copy_out : (i b len : ℕ) → SipSocket → Skb → Host → Received × Host
copy_out i b len e d h =
    if leb e.lastoffset d.len && ltb (d.len - e.lastoffset) len
    then (
      whole (take (d.len - e.lastoffset) (drop e.lastoffset d.bytes)) d.saddr d.source,
      set_socket i (record e { lastdata = none; lastoffset = 0 })
          (record h { skbs = λ c. if c == b then none else h.skbs c }),
    )
    else (
      beside b e.lastoffset len d.saddr d.source,
      set_socket i (record e { lastoffset = (e.lastoffset + len) % 2 ^ 16 }) h,
    )

-- sip_recvfrom behind get_socket: the datagram of which some is left, or the next one.
abbrev pub next_data : ℕ → SipSocket → Host → Option ℕ → Option (Option ℕ × SipSocket × Host)
next_data a e h (some b) = some (some b, e, h)
next_data a e h none =
    Option.map (λ r. (r.0, record e { lastdata = r.0; lastoffset = 0 }, r.1)) (sock_recv a h)

-- The rest of sip_recvfrom.
abbrev pub hand_out :
    (i len : ℕ)
    → (from : Bool) → Host
    → Option (Option ℕ × SipSocket × Host)
    → Run (Received × Host)
hand_out i len from h none = ret (waits, h)
hand_out i len from h (some (o, f, g)) =
    if not from
    then fault
    else (and_then (read o) λ b. and_then (read (g.skbs b)) λ d. ret (copy_out i b len f d g))

-- sip_recvfrom; `from` is whether the two addresses for the sender are not null.
unfoldable pub sip_recvfrom : (s : ℤ) → (len : ℕ) → (from : Bool) → Host → Run (Received × Host)
sip_recvfrom s len from h = on_socket s h.stack (ret (refused, h)) λ ia.
    and_then (read (get_elem? h.stack.sockets ia.0))
      λ e. hand_out ia.0 len from h (next_data ia.1 e h e.lastdata)

-- sip_recv
unfoldable pub sip_recv : (s : ℤ) → (len : ℕ) → Host → Run (Received × Host)
unfolding sip_recvfrom
sip_recv s len h = sip_recvfrom s len false h
