-- ===== src/Tests/Udp.antt =====
-- One control block with a struct sock, bound to port 5.
use linux_program_practice.Sip.Udp.Listen.{Listening, udp_bind-Listening}
use linux_program_practice.Base.Int.{pos}
use linux_program_practice.Sip.Udp.Input.{Received, udp_input-Received, udp_input-Listening}
use linux_program_practice.Sip.Udp.{Udp, UdpPcb, udp_bind, udp_input, follow, put_pcb, post, wander}
use linux_program_practice.Base.Run.{fault, ret}
use linux_program_practice.Sip.Udp.Chains.{Chain}
use linux_program_practice.Base.{
  ℕ, zero, suc, ◌≡◌, refl, Option, none, some, List, [], ◌∷◌, arith, set,
}

abbrev nulls : ℕ → List (Option ℕ)
nulls zero = []
nulls (suc n) = none ∷ nulls n

abbrev a_pcb : UdpPcb
a_pcb = record {
  ip_local = 0;
  port_local = 0;
  ip_remote = 0;
  port_remote = 0;
  tos = 0;
  ttl = 255;
  flags = 0;
  sock = some 7;
  next = none;
}

abbrev unbound_pcb : Udp
unbound_pcb = record {
  table = nulls 128;
  pcbs = put_pcb 1 (some a_pcb) (λ b. none);
  index = 0;
  waiting = λ s. [];
  posted = λ s. 0;
}

udp_bind-Listening_example :
    (u : Udp) × (udp_bind 1 1 0 5 unbound_pcb ≡ ret (pos 0, u))
    × Listening 1 0 5 a_pcb none [] unbound_pcb u
udp_bind-Listening_example =
    udp_bind-Listening 1 1 0 5 unbound_pcb a_pcb none [] refl (omega arith) refl refl tt
      (omega arith) (omega arith) refl

udp_input-Listening_example :
    udp_input 1 5 300 udp_bind-Listening_example.0
    ≡ ret (none, post 7 (300 ∷ []) udp_bind-Listening_example.0)
udp_input-Listening_example =
    udp_input-Listening 1 1 0 5 7 300 a_pcb none [] unbound_pcb udp_bind-Listening_example.0
      (omega arith) (omega arith) udp_bind-Listening_example.2 refl refl

-- Two control blocks in the list of port 5; two datagrams wait at the struct sock of the first.
abbrev two_pcbs : Udp
two_pcbs = record {
  table = set (nulls 128) 5 (some 1);
  pcbs =
      put_pcb 1 (some (record a_pcb { port_local = 5; next = some 2 }))
        (put_pcb 2 (some (record a_pcb { port_local = 133; sock = none })) (λ b. none));
  index = 0;
  waiting = λ s. 100 ∷ 200 ∷ [];
  posted = λ s. 2;
}

third_faults : udp_input 3 5 300 two_pcbs ≡ fault
unfolding udp_input follow wander
third_faults = refl

abbrev two_linked : Chain two_pcbs.pcbs (some 1) (1 ∷ 2 ∷ [])
two_linked = (
  record a_pcb { port_local = 5; next = some 2 },
  refl,
  refl,
  (record a_pcb { port_local = 133; sock = none }, refl, refl, refl),
)

udp_input-Received_example : Received 5 300 (1 ∷ 2 ∷ []) two_pcbs (udp_input 3 5 300 two_pcbs)
udp_input-Received_example =
    udp_input-Received 3 5 300 two_pcbs (some 1) (1 ∷ 2 ∷ []) refl two_linked (omega arith)
