-- ===== src/Sip/Calls/Inert.antt =====
-- Sockets that sip_socket made: none has a control block.
use linux_program_practice.Sip.Checksum.{htons}
use linux_program_practice.Sip.Socket.Descriptors.{Inv}
use linux_program_practice.Sip.Socket.Descriptors.{get_socket-Answer}
use linux_program_practice.Sip.Socket.{get_socket}
use linux_program_practice.Base.Run.{Run, ret, and_then}
use linux_program_practice.Base.Int.{ℤ, eqb_ℤ, pos, negsuc}
use linux_program_practice.Sip.Calls.{
  Host, sip_bind, sip_connect, sip_sendto, sock_bind, sock_connect, sock_send_to, set_err, bind_pcb,
}
use linux_program_practice.Base.{ℕ, ◌≡◌, refl, inl, inr, none, some, if◌then◌else◌, Option, ap}

-- A call that answers `r` and leaves the UDP control blocks and the table of sockets as they are.
abbrev pub Inert : Host → ℤ → Run (ℤ × Host) → Type 0
Inert h r run =
    (g : Host) × (run ≡ ret (r, g))
    × (g.udp ≡ h.udp)
    × (g.stack.sockets ≡ h.stack.sockets)
    × (g.skbs ≡ h.skbs)

-- What a call answers, by what get_socket finds.
abbrev pub answer : Option (Option (ℕ × ℕ)) → ℤ → ℤ
answer none r = negsuc 0
answer (some none) r = negsuc 0
answer (some (some ia)) r = r

module _ (h : Host) (inv : Inv h.stack) (i : ℕ) where
  sip_bind-Inert :
      (fuel : ℕ) (left : ℤ) (addr port : ℕ)
      → Inert h
          (answer (get_socket (pos i) h.stack) (if eqb_ℤ left (pos 0) then pos 0 else negsuc 0))
          (sip_bind fuel left (pos i) addr port h)
  unfolding sip_bind sock_bind
  sip_bind-Inert fuel left addr port = elim (get_socket-Answer h.stack i inv) [
    | inl refused ↦ rw refused (h, refl, refl, refl, refl)
    | inr (a, (e, found, owned), is) ↦
        let (k, here, _, no_pcb) = inv.numbered i a e found owned in
        rw is (
          record h { stack = set_err a k (negsuc 0) h.stack },
          rw here (
              ap
                (λ o.
                  and_then (bind_pcb fuel a addr (htons port) h k o)
                    λ g. ret (if eqb_ℤ left (pos 0) then pos 0 else negsuc 0, g))
                no_pcb),
          refl,
          refl,
          refl,
        )
  ]

  sip_connect-Inert :
      (fuel addr port : ℕ)
      → Inert h (answer (get_socket (pos i) h.stack) (pos 0)) (sip_connect fuel (pos i) addr port h)
  unfolding sip_connect sock_connect
  sip_connect-Inert fuel addr port = elim (get_socket-Answer h.stack i inv) [
    | inl refused ↦ rw refused (h, refl, refl, refl, refl)
    | inr (a, (e, found, owned), is) ↦
        let (k, here, _, no_pcb) = inv.numbered i a e found owned in
        rw is (h, rw here (rw no_pcb refl), refl, refl, refl)
  ]

  sip_sendto-Inert :
      (len to : ℕ)
      → Inert h (answer (get_socket (pos i) h.stack) (pos len)) (sip_sendto (pos i) len (some to) h)
  unfolding sip_sendto sock_send_to
  sip_sendto-Inert len to = elim (get_socket-Answer h.stack i inv) [
    | inl refused ↦ rw refused (h, refl, refl, refl, refl)
    | inr (a, (e, found, owned), is) ↦
        let (k, here, _, no_pcb) = inv.numbered i a e found owned in
        rw is (h, rw here (rw no_pcb refl), refl, refl, refl)
  ]

  -- On the sockets that sip_socket makes, sip_bind, sip_connect and sip_sendto do nothing but write an
  -- error number that nothing reads: no port is bound, no address noted, and nothing sent. Yet
  -- sip_connect answers 0 and sip_sendto the whole length, if the descriptor is that of a socket.
  pub calls-Inert :
      (fuel : ℕ) (left : ℤ) (addr port len : ℕ)
      → Inert h
          (answer (get_socket (pos i) h.stack) (if eqb_ℤ left (pos 0) then pos 0 else negsuc 0))
          (sip_bind fuel left (pos i) addr port h)
        × Inert h
            (answer (get_socket (pos i) h.stack) (pos 0))
            (sip_connect fuel (pos i) addr port h)
        × Inert h
            (answer (get_socket (pos i) h.stack) (pos len))
            (sip_sendto (pos i) len (some addr) h)
  calls-Inert fuel left addr port len = (
    sip_bind-Inert fuel left addr port,
    sip_connect-Inert fuel addr port,
    sip_sendto-Inert len addr,
  )
