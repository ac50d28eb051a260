-- ===== src/Tests/Calls.antt =====
-- Calls on the first socket.
use linux_program_practice.Base.Run.{ret}
use linux_program_practice.Base.Int.{pos}
use linux_program_practice.Sip.Calls.{waits, Host, Skb, sip_recv, sip_recvfrom, sock_recv}
use linux_program_practice.Sip.Socket.{SipSocket, Stack, Sock, get_socket}
use linux_program_practice.Sip.Socket.Descriptors.{Inv, Numbered}
use linux_program_practice.Base.{ℕ, zero, suc, ◌≡◌, refl, none, some, [], ◌∷◌, get_elem?, codes}

abbrev first_sock : Sock
first_sock = record { kind = 2; pcb = none; err = pos 0; socket = pos 0 }

abbrev empty_element : SipSocket
empty_element = record { sock = none; lastdata = none; lastoffset = 0; err = pos 0 }

abbrev first_element : SipSocket
first_element = record { sock = some 500; lastdata = none; lastoffset = 0; err = pos 0 }

abbrev first_socket : Stack
first_socket = record {
  sockets = first_element ∷ empty_element ∷ empty_element ∷ empty_element ∷ [];
  socks = λ b. some first_sock;
}

first_socket-Inv : Inv first_socket
first_socket-Inv = record { four = refl; numbered = number }
  where
    number :
        (i a : ℕ) (e : SipSocket)
        → get_elem? first_socket.sockets i ≡ some e
        → e.sock ≡ some a
        → Numbered first_socket i a
    number zero a e found owned = (first_sock, refl, refl, refl)
    number (suc zero) a e found owned = cc
    number (suc (suc zero)) a e found owned = cc
    number (suc (suc (suc zero))) a e found owned = cc
    number (suc (suc (suc (suc i)))) a e found owned = cc

abbrev hello : Skb
hello = record { bytes = codes "Hello"; len = 5; saddr = 1; source = 53 }

-- A datagram of five bytes waits at the struct sock.
abbrev one_waits : Host
one_waits = record {
  stack = first_socket;
  udp = record {
    table = [];
    pcbs = λ b. none;
    index = 0;
    waiting = λ s. 900 ∷ [];
    posted = λ s. 1;
  };
  skbs = λ b. some hello;
}

nothing_waits : Host
nothing_waits = record one_waits {
  udp = record one_waits.udp { posted = λ s. 0; waiting = λ s. [] };
}

first_call : sip_recv (pos 0) 3 nothing_waits ≡ ret (waits, nothing_waits)
unfolding sip_recv sip_recvfrom sock_recv get_socket nothing_waits
first_call = refl
