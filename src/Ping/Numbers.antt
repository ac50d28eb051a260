-- ===== src/Ping/Numbers.antt =====
-- The times and the numbers of ping.
use linux_program_practice.Base.{
  ℕ, ◌+◌, ◌-◌, ◌*◌, ◌/◌, ◌^◌, ◌≤◌, ◌<◌, ◌≡◌, refl, false, none, List, [], ◌∷◌, arith, length,
}
use linux_program_practice.Base.Int.{pos}
use linux_program_practice.Ping.{
  Ping, Packet, Timeval, icmp_unpack, count_reply, first_index, has_seq, icmp_tvsub, millis,
}
use linux_program_practice.Ping.Answered.{Reply, packet_of, unpack_lem}

abbrev pub time_of : (sec usec : ℕ) → Timeval
time_of sec usec = record { tv_sec = pos sec; tv_usec = pos usec }

-- The time that is printed of a reply is the whole milliseconds between two times of the clock.
pub millis-tvsub :
    (s0 u0 s1 u1 : ℕ)
    → u0 < 1000000
    → u1 < 1000000
    → s0 * 1000000 + u0 ≤ s1 * 1000000 + u1
    → millis (icmp_tvsub (time_of s1 u1) (time_of s0 u0))
      ≡ pos ((s1 * 1000000 + u1 - (s0 * 1000000 + u0)) / 1000)
unfolding icmp_tvsub
millis-tvsub s0 u0 s1 u1 a b later = ground arith

no_such_number : (seq : ℕ) (xs : List Packet) → 2 ^ 15 ≤ seq → first_index (has_seq seq) xs ≡ none
unfolding first_index
no_such_number seq [] big = refl
no_such_number seq (x ∷ xs) big =
    let other : has_seq seq x ≡ false = ground arith in
    rw other (rw (no_such_number seq xs big) refl)

-- A reply of this process, behind an IP header of 20 bytes, with a number from 32768 to 65535 is not
-- counted, whatever the table holds.
pub beyond_unanswered :
    (pid seq : ℕ) (r : Reply) (now : Timeval) (st : Ping)
    → length r.before ≡ 7
    → length r.behind ≡ 11
    → pid < 2 ^ 16
    → seq < 2 ^ 16
    → 2 ^ 15 ≤ seq
    → icmp_unpack pid now (packet_of pid seq r) st ≡ none
unfolding count_reply
beyond_unanswered pid seq r now st seven eleven p_lt s_lt big =
    let missing = no_such_number seq st.pingpacket big in
    rw (unpack_lem pid seq r seven eleven now st p_lt s_lt) (rw missing refl)
