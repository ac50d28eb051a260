-- ===== src/Tests/Ping.antt =====
-- A ping of user 1000, whose first packet is sent at 10.9 s and answered at 12.1 s.
use linux_program_practice.Ping.Message.{echo_request, icmp_pack-accepted}
use linux_program_practice.Ping.Replies.{begins, sends, at_start}
use linux_program_practice.Ping.Answered.{Reply, packet_of, printed, after, outstanding_answered}
use linux_program_practice.Ping.Numbers.{time_of, beyond_unanswered}
use linux_program_practice.Ping.{Ping, Packet, icmp_pack, icmp_cksum, icmp_send, icmp_unpack}
use linux_program_practice.Base.{ℕ, ◌≡◌, refl, true, some, none, [], ◌∷◌, arith, get_elem?}

icmp_pack-accepted_example :
    (v : ℕ) × (icmp_pack 1000 1 64 ≡ some (echo_request 1000 1 v))
    × (icmp_cksum (echo_request 1000 1 v) 64 ≡ some 0)
icmp_pack-accepted_example = icmp_pack-accepted 1000 1

abbrev waiting : Ping
waiting = (icmp_send 1000 (time_of 10 900000) true at_start).1

abbrev first : Packet
first = record { tv_begin = time_of 10 900000; seq = 0; flag = 1 }

first_sent : get_elem? waiting.pingpacket 0 ≡ some first
unfolding icmp_send
first_sent = refl

abbrev echo_answer : Reply
echo_answer = record {
  before = 0 ∷ 0 ∷ 36 ∷ 0 ∷ 0 ∷ 0 ∷ 0 ∷ [];
  ttl = 64;
  behind = 1 ∷ 0 ∷ 0 ∷ 10 ∷ 0 ∷ 0 ∷ 2 ∷ 10 ∷ 0 ∷ 0 ∷ 1 ∷ [];
  code = 0;
  sum0 = 0;
  sum1 = 0;
  text = 0 ∷ 1 ∷ [];
}

outstanding_answered_example :
    (icmp_unpack 1000 (time_of 12 100000) (packet_of 1000 0 echo_answer) waiting
      ≡ some (printed (time_of 12 100000) first echo_answer, after 0 first waiting))
    × (icmp_unpack 1000 (time_of 12 200000) (packet_of 1000 0 echo_answer) (after 0 first waiting)
        ≡ some (
          printed (time_of 12 200000) first echo_answer,
          after 0 (record first { flag = 0 }) (after 0 first waiting),
        ))
outstanding_answered_example =
    outstanding_answered 0 first (time_of 12 100000) (time_of 12 200000) echo_answer
      (sends (time_of 10 900000) begins (omega arith)) first_sent (omega arith) (omega arith) refl
      refl

beyond_unanswered_example :
    icmp_unpack 1000 (time_of 12 100000) (packet_of 1000 40000 echo_answer) at_start ≡ none
beyond_unanswered_example =
    beyond_unanswered 1000 40000 echo_answer (time_of 12 100000) at_start refl refl (omega arith)
      (omega arith) (omega arith)
