-- ===== src/Ping/Answered.antt =====
-- The reply to a packet that is outstanding, and the same reply once more.
use linux_program_practice.Ping.Replies.{Runs, Runs-Sound, outstanding_found}
use mathlib.Core.Option
use linux_program_practice.Base.{
  ℕ, suc, ◌+◌, ◌-◌, ◌*◌, ◌/◌, ◌%◌, ◌^◌, ◌<◌, ◌≡◌, refl, ◌∙◌, false, List, ◌∷◌, ◌++◌, arith, ltb,
  length, get_elem?, length-append, ==_iff, ==_iff, sym, subst, ◌≢◌, inl, inr, true, some, set,
  get_elem?-set_self,
}
use linux_program_practice.Ping.{
  Ping, Timeval, icmp_unpack, count_reply, first_index, has_seq, word, Packet, PrintedReply,
  int_of_long, millis, icmp_tvsub,
}
use linux_program_practice.Ping.Table.{
  get_elem?-behind, IsFirst, IsFirst-first_index, get_elem?-set,
}

-- An echo reply in an IP packet with a header of 20 bytes.
pub record Reply : Type 0 where
  pub before : List ℕ
  pub ttl : ℕ
  pub behind : List ℕ
  pub code : ℕ
  pub sum0 : ℕ
  pub sum1 : ℕ
  pub text : List ℕ

abbrev pub icmp_part : (pid seq : ℕ) → Reply → List ℕ
icmp_part pid seq r = 0 ∷ r.code ∷ r.sum0 ∷ r.sum1 ∷ (word pid ++ (word seq ++ r.text))

abbrev pub packet_of : (pid seq : ℕ) → Reply → List ℕ
packet_of pid seq r = 0x45 ∷ (r.before ++ r.ttl ∷ (r.behind ++ icmp_part pid seq r))

module _ (pid seq : ℕ) (r : Reply) (seven : length r.before ≡ 7)
    (eleven : length r.behind ≡ 11) where
  at_icmp :
      (n k : ℕ)
      → n ≡ 19 + k
      → get_elem? (packet_of pid seq r) (suc n) ≡ get_elem? (icmp_part pid seq r) k
  at_icmp n k e =
      get_elem?-behind r.before (r.ttl ∷ (r.behind ++ icmp_part pid seq r)) n (suc (11 + k))
        (omega (arith, seven))
      ∙ get_elem?-behind r.behind (icmp_part pid seq r) (11 + k) k (omega (arith, eleven))

  pub unpack_lem :
      (now : Timeval) (st : Ping)
      → pid < 2 ^ 16
      → seq < 2 ^ 16
      → icmp_unpack pid now (packet_of pid seq r) st
        ≡ count_reply now (8 + length r.text) seq r.ttl (first_index (has_seq seq) st.pingpacket) st
  unfolding icmp_unpack
  unpack_lem now st p_lt s_lt =
      let kind = at_icmp 19 0 (omega arith) in
      let id0 = at_icmp 23 4 (omega arith) in
      let id1 = at_icmp 24 5 (omega arith) in
      let seq0 = at_icmp 25 6 (omega arith) in
      let seq1 = at_icmp 26 7 (omega arith) in
      let ttl =
        get_elem?-behind r.before (r.ttl ∷ (r.behind ++ icmp_part pid seq r)) 7 0
          (omega (arith, seven)) in
      let id_is : pid % 256 + 256 * (pid / 256 % 256) ≡ pid = omega arith in
      let seq_is : seq % 256 + 256 * (seq / 256 % 256) ≡ seq = omega arith in
      let tail = r.ttl ∷ (r.behind ++ icmp_part pid seq r) in
      let size : length (r.before ++ tail) ≡ 27 + length r.text = omega (
        arith,
        seven,
        eleven,
        length-append r.before tail,
        length-append r.behind (icmp_part pid seq r),
      ) in
      let long : ltb (suc (27 + length r.text)) 28 ≡ false = ground arith in
      let cut : suc (27 + length r.text) - 20 ≡ 8 + length r.text = omega arith in
      let self = (==_iff pid pid).1 refl in
      rw kind (
        rw id0 (
          rw id1 (
            rw seq0 (
              rw seq1
                (rw ttl (rw size (rw id_is (rw seq_is (rw long (rw self (rw cut refl)))))))))))

abbrev pub printed : Timeval → Packet → Reply → PrintedReply
printed now e r = record {
  len = 8 + length r.text;
  icmp_seq = e.seq;
  ttl = r.ttl;
  rtt = int_of_long (millis (icmp_tvsub now e.tv_begin));
}

-- The state after the packet `e` at index `i` was answered.
abbrev pub after : ℕ → Packet → Ping → Ping
after i e st = record st {
  pingpacket = set st.pingpacket i (record e { flag = 0 });
  packet_recv = (st.packet_recv + 1) % 2 ^ 16;
}

count_lem :
    (now : Timeval) (st : Ping) (i : ℕ) (e : Packet) (r : Reply)
    → IsFirst (has_seq e.seq) st.pingpacket i
    → get_elem? st.pingpacket i ≡ some e
    → count_reply now (8 + length r.text) e.seq r.ttl (first_index (has_seq e.seq) st.pingpacket) st
      ≡ some (printed now e r, after i e st)
unfolding count_reply
count_lem now st i e r first at =
    let found = IsFirst-first_index (has_seq e.seq) st.pingpacket i first in rw found (rw at refl)

-- It is still the first with its number.
answered-IsFirst :
    (st : Ping) (i : ℕ) (e : Packet)
    → get_elem? st.pingpacket i ≡ some e
    → IsFirst (has_seq e.seq) st.pingpacket i
    → IsFirst (has_seq e.seq) (after i e st).pingpacket i
answered-IsFirst st i e at (g, at', holds, before) =
    let same : g ≡ e = Option.some_inj.0 (sym at' ∙ at) in
    (
      record e { flag = 0 },
      get_elem?-set_self st.pingpacket i (record e { flag = 0 }) e at,
      subst (λ (x : Packet). has_seq e.seq x ≡ true) same holds,
      λ j f lt h. elim (get_elem?-set st.pingpacket i j (record e { flag = 0 }) f h) [
        | inl (here, _) ↦ absurd (omega (arith, lt, here))
        | inr old ↦ before j f lt old
      ],
    )

-- In every state that is reached while each sendto succeeds and the numbers stay below 32768, for a
-- number of the process below 65536: the reply to a packet that is outstanding, behind an IP header of
-- 20 bytes, is counted, with the time since that packet was sent, and the packet is no longer
-- outstanding; and the same reply once more is counted once more.
pub outstanding_answered :
    {pid : ℕ} {st : Ping} (i : ℕ) (e : Packet) (now again : Timeval) (r : Reply)
    → Runs pid st
    → get_elem? st.pingpacket i ≡ some e
    → e.flag ≢ 0
    → pid < 2 ^ 16
    → length r.before ≡ 7
    → length r.behind ≡ 11
    → (icmp_unpack pid now (packet_of pid e.seq r) st ≡ some (printed now e r, after i e st))
      × (icmp_unpack pid again (packet_of pid e.seq r) (after i e st)
          ≡ some (printed again e r, after i (record e { flag = 0 }) (after i e st)))
outstanding_answered {pid} {st} i e now again r run at out p_lt seven eleven =
    let v = Runs-Sound run in
    let first = outstanding_found st i e v at out in
    let few : e.seq < 2 ^ 16 = omega (arith, v.few, v.below i e at) in
    let first' = answered-IsFirst st i e at first in
    let at' = get_elem?-set_self st.pingpacket i (record e { flag = 0 }) e at in
    (
      unpack_lem pid e.seq r seven eleven now st p_lt few ∙ count_lem now st i e r first at,
      unpack_lem pid e.seq r seven eleven again (after i e st) p_lt few
          ∙ count_lem again (after i e st) i (record e { flag = 0 }) r first' at',
    )
