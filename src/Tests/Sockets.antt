-- ===== src/Tests/Sockets.antt =====
-- Opening the first socket, and closing it.
use linux_program_practice.Base.{ℕ, zero, suc, ◌≡◌, refl, true, none, some, [], ◌∷◌, get_elem?}
use linux_program_practice.Base.Int.{ℤ, pos, negsuc}
use linux_program_practice.Sip.Socket.{
  SipSocket, Stack, sip_socket, sip_close, put_sock, alloc_socket,
}
use linux_program_practice.Sip.Socket.Descriptors.{
  Inv, Opened, Closed, fresh_entry, sip_socket-Opened, sip_close-Closed,
}

abbrev no_socket : SipSocket
no_socket = record { sock = none; lastdata = none; lastoffset = 0; err = pos 0 }

abbrev no_sockets : Stack
no_sockets = record {
  sockets = no_socket ∷ no_socket ∷ no_socket ∷ no_socket ∷ [];
  socks = λ a. none;
}

no_sockets-Inv : Inv no_sockets
no_sockets-Inv = record {
  four = refl;
  numbered = λ i a e found owned. absurd (nothing i a e found owned);
}
  where
    nothing :
        (i a : ℕ) (e : SipSocket) → get_elem? no_sockets.sockets i ≡ some e → e.sock ≡ some a → ⊥
    nothing zero a e found owned = cc
    nothing (suc zero) a e found owned = cc
    nothing (suc (suc zero)) a e found owned = cc
    nothing (suc (suc (suc zero))) a e found owned = cc
    nothing (suc (suc (suc (suc i)))) a e found owned = cc

abbrev one_socket : Stack
one_socket = record {
  sockets = fresh_entry 500 ∷ no_socket ∷ no_socket ∷ no_socket ∷ [];
  socks = put_sock 500 (some (record { kind = 2; pcb = none; err = pos 0; socket = pos 0 })) (
      put_sock 500 (some (record { kind = 2; pcb = none; err = pos 0; socket = negsuc 0 }))
        (λ a. none));
}

first_opened : sip_socket 2 2 0 (some 500) true no_sockets ≡ some (pos 0, one_socket)
unfolding sip_socket alloc_socket
first_opened = refl

sip_socket-Opened_example : Opened 500 no_sockets (pos 0, one_socket) × Inv one_socket
sip_socket-Opened_example =
    sip_socket-Opened 500 no_sockets (pos 0, one_socket) no_sockets-Inv refl first_opened

sip_close-Closed_example :
    (r : ℤ × Stack) × (sip_close (pos 0) one_socket ≡ some r) × Inv r.1 × Closed 0 one_socket r
sip_close-Closed_example = sip_close-Closed 0 one_socket sip_socket-Opened_example.1
