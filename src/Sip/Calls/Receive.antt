-- ===== src/Sip/Calls/Receive.antt =====
-- Receiving on a socket.
use linux_program_practice.Sip.Calls.{
  Received, refused, waits, whole, hand_out, took, next_data, take_first, set_socket,
}
use linux_program_practice.Sip.Socket.Descriptors.{Inv}
use linux_program_practice.Sip.Socket.Descriptors.{get_socket-Open}
use linux_program_practice.Base.Run.{ret, and_then, read}
use linux_program_practice.Sip.Socket.{SipSocket, get_socket}
use linux_program_practice.Base.Int.{ℤ, pos}
use linux_program_practice.Sip.Calls.{sip_recv, sip_recvfrom, sock_recv, Host, Skb, beside}
use linux_program_practice.Base.{
  ℕ, ◌+◌, ◌-◌, ◌%◌, ◌^◌, ◌≡◌, refl, sym, ap, ◌≢◌, ◌⊎◌, inl, inr, true, false, Option, none, some,
  List, ◌∷◌, arith, ltb, leb, ◌==◌, if◌then◌else◌, Bool-cases, get_elem?, take,
}

hand_out_nothing :
    (i len : ℕ) (h : Host) (o : Option (Option ℕ × SipSocket × Host)) (r : Received × Host)
    → hand_out i len false h o ≡ ret r
    → ((r.0 ≡ refused) ⊎ (r.0 ≡ waits)) × (r.1 ≡ h)
hand_out_nothing i len h none r is =
    let e : (waits, h) ≡ r = cc in
    (inr (ap (λ (p : Received × Host). p.0) (sym e)), ap (λ (p : Received × Host). p.1) (sym e))
hand_out_nothing i len h (some x) r is = cc

recv_at_nothing :
    (ia : ℕ × ℕ) (len : ℕ) (h : Host) (o : Option SipSocket) (r : Received × Host)
    → (and_then (read o) λ e. hand_out ia.0 len false h (next_data ia.1 e h e.lastdata)) ≡ ret r
    → ((r.0 ≡ refused) ⊎ (r.0 ≡ waits)) × (r.1 ≡ h)
recv_at_nothing ia len h none r is = cc
recv_at_nothing ia len h (some e) r is =
    hand_out_nothing ia.0 len h (next_data ia.1 e h e.lastdata) r is

found_nothing :
    (o : Option (Option (ℕ × ℕ))) (len : ℕ) (h : Host) (r : Received × Host)
    → (and_then (read o) λ found. elim found [
      | none ↦ ret (refused, h)
      | some ia ↦
          and_then
            (read (get_elem? h.stack.sockets ia.0))
            λ e. hand_out ia.0 len false h (next_data ia.1 e h e.lastdata)
    ])
      ≡ ret r
    → ((r.0 ≡ refused) ⊎ (r.0 ≡ waits)) × (r.1 ≡ h)
found_nothing none len h r is = cc
found_nothing (some none) len h r is =
    let e : (refused, h) ≡ r = cc in
    (inl (ap (λ (p : Received × Host). p.0) (sym e)), ap (λ (p : Received × Host). p.1) (sym e))
found_nothing (some (some ia)) len h r is =
    recv_at_nothing ia len h (get_elem? h.stack.sockets ia.0) r is

-- sip_recv never gives any data: where it returns, the descriptor is refused or it would wait, and
-- nothing has changed.
pub sip_recv_nothing :
    (s : ℤ) (len : ℕ) (h : Host) (r : Received × Host)
    → sip_recv s len h ≡ ret r
    → ((r.0 ≡ refused) ⊎ (r.0 ≡ waits)) × (r.1 ≡ h)
unfolding sip_recv sip_recvfrom
sip_recv_nothing s len h r is = found_nothing (get_socket s h.stack) len h r is

-- sip_recvfrom on a socket that holds no datagram, with one at its struct sock: a buffer that is
-- greater than the datagram gets all of it, and it is freed; any other gets what happens to be at the
-- struct of the datagram, and the next call goes on behind as many bytes.
pub sip_recvfrom_next :
    (h : Host) (i a len b : ℕ) (rest : List ℕ) (e : SipSocket) (d : Skb)
    → Inv h.stack
    → get_elem? h.stack.sockets i ≡ some e
    → e.sock ≡ some a
    → e.lastdata ≡ none
    → h.udp.posted a ≢ 0
    → h.udp.waiting a ≡ b ∷ rest
    → h.skbs b ≡ some d
    → (g : Host) × (sip_recvfrom (pos i) len true h
        ≡ ret (
          if ltb d.len len
              then whole (take d.len d.bytes) d.saddr d.source
              else beside b 0 len d.saddr d.source,
          g,
        ))
      × (g.udp.waiting a ≡ rest)
      × (g.skbs b ≡ (if ltb d.len len then none else some d))
unfolding sip_recvfrom sock_recv
sip_recvfrom_next h i a len b rest e d inv found owned empty posted queue here =
    let is = get_socket-Open h.stack i a inv (e, found, owned) in
    let some_posted : (h.udp.posted a == 0) ≡ false = ground (arith, posted) in
    let itself : (b == b) ≡ true = ground arith in
    let itself_a : (a == a) ≡ true = ground arith in
    let f = record e { lastdata = some b; lastoffset = 0 } in
    let g = took a rest h in
    let next : next_data a e h none ≡ some (some b, f, g) = rw some_posted (
      ap
        (λ q. some (
          (take_first a h q).0,
          record e { lastdata = (take_first a h q).0; lastoffset = 0 },
          (take_first a h q).1,
        ))
        queue) in
    let zero_le : leb 0 d.len ≡ true = ground arith in
    let whole_len : d.len - 0 ≡ d.len = omega arith in
    elim (Bool-cases (ltb d.len len)) [
      | inl large ↦ (
        set_socket i (record f { lastdata = none; lastoffset = 0 })
            (record g { skbs = λ c. if c == b then none else g.skbs c }),
        rw is (rw found (rw empty (rw next (rw here (rw zero_le (rw whole_len (rw large refl))))))),
        rw itself_a refl,
        rw large (rw itself refl),
      )
      | inr small ↦ (
        set_socket i (record f { lastoffset = (0 + len) % 2 ^ 16 }) g,
        rw is (rw found (rw empty (rw next (rw here (rw zero_le (rw whole_len (rw small refl))))))),
        rw itself_a refl,
        rw small here,
      )
    ]
