-- ===== src/Tests/Ip.antt =====
-- IP headers and ICMP messages.
use linux_program_practice.Sip.Frag.{zeros}
use linux_program_practice.Base.Run.{ret}
use linux_program_practice.Sip.Ip.Delivery.{ip_input, passed_on}
use linux_program_practice.Sip.Reassembly.{Allocs, Fragments, SipSkbuff}
use linux_program_practice.Sip.Arp.{and_bits}
use linux_program_practice.Base.{
  ℕ, ◌<◌, ◌≡◌, refl, some, List, [], ◌∷◌, ◌++◌, arith, if◌then◌else◌, All-append, none, ◌==◌,
}
use linux_program_practice.Tests.Arp.{device}
use linux_program_practice.Sip.Checksum.{chksum, stored, chksum_standard}
use linux_program_practice.Sip.Checksum.Sums.{IsBytes, word_sum}
use linux_program_practice.Sip.Checksum.Verify.{chksum-stored}
use linux_program_practice.Sip.Ip.{
  SipIphdr, iph_of, to_udp, ip_accept, ip_output, ip_fill, whole, ip_is_broadcast,
}
use linux_program_practice.Sip.Icmp.{echo_reply}
use linux_program_practice.Sip.Icmp.Echo.{echo_reply-accepted}

-- A datagram without data for the device, from 10.0.0.2, up to its checksum and behind it.
abbrev front : List ℕ
front = 69 ∷ 0 ∷ 0 ∷ 20 ∷ 0 ∷ 1 ∷ 0 ∷ 0 ∷ 64 ∷ 17 ∷ []

abbrev behind : List ℕ
behind = 10 ∷ 0 ∷ 0 ∷ 2 ∷ 5 ∷ 0 ∷ 0 ∷ 0 ∷ []

front-IsBytes : IsBytes front
front-IsBytes = (
  omega arith,
  (
    omega arith,
    (
      omega arith,
      (
        omega arith,
        (
          omega arith,
          (omega arith, (omega arith, (omega arith, (omega arith, (omega arith, tt))))),
        ),
      ),
    ),
  ),
)

behind-IsBytes : IsBytes behind
behind-IsBytes = (
  omega arith,
  (
    omega arith,
    (omega arith, (omega arith, (omega arith, (omega arith, (omega arith, (omega arith, tt)))))),
  ),
)

abbrev pub header : List ℕ
header = front ++ (stored 55147 ++ behind)

header_sum : chksum (front ++ 0 ∷ 0 ∷ behind) 20 ≡ some 55147
unfolding chksum chksum_standard
header_sum = refl

chksum-stored_example : chksum header 20 ≡ some 0
chksum-stored_example =
    chksum-stored 5 front behind 55147 refl front-IsBytes behind-IsBytes (omega arith) header_sum

header-IsBytes : IsBytes header
header-IsBytes =
    All-append (λ b. b < 256) front (stored 55147 ++ behind) front-IsBytes
      (omega arith, (omega arith, behind-IsBytes))

-- The datagram in the buffer at 5, in a frame of 34 bytes.
abbrev framed : SipSkbuff
framed = record { next = none; buf = zeros 14 ++ header; nh = 14; tail = 34 }

abbrev one_framed : Fragments
one_framed = record {
  skbs = λ a. if a == 5 then some framed else none;
  chains = λ a. none;
  ip_reass_list = none;
}

abbrev no_memory : Allocs
no_memory = record { entry = none; buffer = none }

header_given_on :
    ip_input 1 100 no_memory device 34 5 one_framed ≡ ret (passed_on 5 to_udp, one_framed)
unfolding ip_input ip_accept iph_of chksum ip_is_broadcast chksum_standard and_bits
header_given_on = refl

header_delivered : ip_accept device 34 header ≡ some to_udp
unfolding ip_accept iph_of chksum ip_is_broadcast chksum_standard and_bits
header_delivered = refl

-- The same with ten bytes of data.
abbrev data_header : List ℕ
data_header = 69 ∷ 0 ∷ 0 ∷ 30 ∷ 0 ∷ 1 ∷ 0 ∷ 0 ∷ 64 ∷ 17 ∷ 0 ∷ 0 ∷ behind

abbrev data_iph : SipIphdr
data_iph = record {
  ihl = 5;
  version = 4;
  tos = 0;
  tot_len = 7680;
  id = 256;
  frag_off = 0;
  ttl = 64;
  protocol = 17;
  check = 0;
  saddr = 33554442;
  daddr = 5;
}

data_read : iph_of data_header ≡ some data_iph
unfolding iph_of
data_read = refl

header_sent : ip_output 1500 34 33554442 5 64 0 17 (front ++ 0 ∷ 0 ∷ behind) ≡ some (whole header)
unfolding ip_output ip_fill chksum chksum_standard
header_sent = refl

-- An echo request with identifier 7 and sequence number 1.
abbrev echo_rest : List ℕ
echo_rest = 0 ∷ 7 ∷ 0 ∷ 1 ∷ []

request_sum : chksum (8 ∷ 0 ∷ 247 ∷ 247 ∷ echo_rest) 8 ≡ some 0
unfolding chksum chksum_standard
request_sum = refl

request_answered : echo_reply (8 ∷ 0 ∷ 247 ∷ 247 ∷ echo_rest) ≡ some (0 ∷ 0 ∷ 255 ∷ 247 ∷ echo_rest)
unfolding echo_reply
request_answered = refl

echo_reply-accepted_example : chksum (0 ∷ 0 ∷ 255 ∷ 247 ∷ echo_rest) 8 ≡ some 0
unfolding word_sum
echo_reply-accepted_example =
    echo_reply-accepted 0 247 247 echo_rest (0 ∷ 0 ∷ 255 ∷ 247 ∷ echo_rest)
      (
        omega arith,
        (
          omega arith,
          (
            omega arith,
            (omega arith, (omega arith, (omega arith, (omega arith, (omega arith, tt))))),
          ),
        ),
      )
      (omega arith) (omega arith) request_sum request_answered
