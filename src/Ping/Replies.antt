-- ===== src/Ping/Replies.antt =====
-- Replies to what ping has sent.
use linux_program_practice.Base.Int.{pos}
use mathlib.Core.Option
use linux_program_practice.Base.{
  ℕ, ◌+◌, ◌-◌, ◌%◌, ◌^◌, ◌≤◌, ◌<◌, ◌≡◌, ◌≢◌, inl, inr, refl, sym, ap, ◌∙◌, true, Option, some, List,
  arith, get_elem?, set, Option-cases, zero, suc, ◌*◌, subst, Bool, false, none, [], ◌∷◌,
  if◌then◌else◌, Bool-cases, >>=-eq-some,
}
use linux_program_practice.Ping.{
  Ping, Packet, Timeval, icmp_send, first_index, is_free, start_packet, PrintedReply, count_reply,
  has_seq, icmp_unpack,
}
use linux_program_practice.Ping.Table.{IsFirst, first_index-IsFirst, get_elem?-set}

-- What the table holds: no number that was not sent, nothing outstanding before the first packet, and
-- of two packets with a number only the first may be outstanding.
pub record Sound (st : Ping) : Type 0 where
  pub few : st.packet_send < 2 ^ 15
  pub below : (i : ℕ) (e : Packet) → get_elem? st.pingpacket i ≡ some e → e.seq ≤ st.packet_send - 1
  pub fresh :
      (i : ℕ) (e : Packet) → st.packet_send ≡ 0 → get_elem? st.pingpacket i ≡ some e → e.flag ≡ 0
  pub once :
      (i j : ℕ) (e f : Packet)
      → i < j
      → get_elem? st.pingpacket i ≡ some e
      → get_elem? st.pingpacket j ≡ some f
      → e.seq ≡ f.seq
      → f.flag ≡ 0

-- The state after a successful round, by the place of the packet.
abbrev sent_at : Timeval → Option ℕ → Ping → Ping
sent_at now place st = record {
  pingpacket = start_packet now st.packet_send place st.pingpacket;
  packet_send = (st.packet_send + 1) % 2 ^ 16;
  packet_recv = st.packet_recv;
}

module _ (st : Ping) (now : Timeval) (v : Sound st) (room : st.packet_send + 1 < 2 ^ 15) (k : ℕ)
    (at : IsFirst is_free st.pingpacket k) where
  abbrev new : Packet
  new = record { tv_begin = now; seq = st.packet_send; flag = 1 }

  abbrev table : List Packet
  table = set st.pingpacket k new

  not_free : (i : ℕ) (e : Packet) → get_elem? st.pingpacket i ≡ some e → i < k → e.flag ≢ 0
  not_free i e here lt z = ground (arith, at.3 i e lt here, z)

  sent-below : (i : ℕ) (e : Packet) → get_elem? table i ≡ some e → e.seq ≤ st.packet_send
  sent-below i e h = elim (get_elem?-set st.pingpacket k i new e h) [
    | inl (_, is) ↦ rw is (omega arith)
    | inr old ↦ omega (arith, v.below i e old)
  ]

  sent-once :
      (i j : ℕ) (e f : Packet)
      → i < j
      → get_elem? table i ≡ some e
      → get_elem? table j ≡ some f
      → e.seq ≡ f.seq
      → f.flag ≡ 0
  sent-once i j e f lt hi hj same = elim (get_elem?-set st.pingpacket k j new f hj) [
    | inl (there, is) ↦ elim (get_elem?-set st.pingpacket k i new e hi) [
      | inl (here, _) ↦ absurd (omega (arith, lt, here, there))
      | inr old ↦
          let number : e.seq ≡ st.packet_send = same ∙ ap (λ (x : Packet). x.seq) is in
          let none_sent : st.packet_send ≡ 0 = omega (arith, v.below i e old, number) in
          absurd (not_free i e old (omega (arith, lt, there)) (v.fresh i e none_sent old))
    ]
    | inr old' ↦ elim (get_elem?-set st.pingpacket k i new e hi) [
      | inl (_, is) ↦
          let number : f.seq ≡ st.packet_send = sym same ∙ ap (λ (x : Packet). x.seq) is in
          let none_sent : st.packet_send ≡ 0 = omega (arith, v.below j f old', number) in
          v.fresh j f none_sent old'
      | inr old ↦ v.once i j e f lt old old' same
    ]
  ]

-- A packet is no longer outstanding.
pub answered-Sound :
    (st : Ping) (i recv : ℕ) (e : Packet)
    → Sound st
    → get_elem? st.pingpacket i ≡ some e
    → Sound
        (record st { pingpacket = set st.pingpacket i (record e { flag = 0 }); packet_recv = recv })
answered-Sound st i recv e v at = record {
  few = v.few;
  below = λ j f h. elim (get_elem?-set st.pingpacket i j (record e { flag = 0 }) f h) [
    | inl (_, is) ↦ rw is (v.below i e at)
    | inr old ↦ v.below j f old
  ];
  fresh = λ j f z h. elim (get_elem?-set st.pingpacket i j (record e { flag = 0 }) f h) [
    | inl (_, is) ↦ rw is refl
    | inr old ↦ v.fresh j f z old
  ];
  once = λ j k f g lt hj hk same.
      elim (get_elem?-set st.pingpacket i k (record e { flag = 0 }) g hk) [
        | inl (_, is) ↦ rw is refl
        | inr old ↦ elim (get_elem?-set st.pingpacket i j (record e { flag = 0 }) f hj) [
          | inl (here, is) ↦
              v.once i k e g (omega (arith, lt, here)) at old
                (sym (ap (λ (x : Packet). x.seq) is) ∙ same)
          | inr old' ↦ v.once j k f g lt old' old same
        ]
      ];
}

-- A successful round, as long as the numbers fit a short.
icmp_send-Sound :
    (pid : ℕ) (now : Timeval) (st : Ping)
    → Sound st
    → st.packet_send + 1 < 2 ^ 15
    → Sound (icmp_send pid now true st).1
unfolding icmp_send
icmp_send-Sound pid now st v room =
    let next : (st.packet_send + 1) % 2 ^ 16 ≡ st.packet_send + 1 = omega arith in
    elim (Option-cases (first_index is_free st.pingpacket)) [
      | inl full ↦ rw full (
          rw next (record {
            few = room;
            below = λ i e h. omega (arith, v.below i e h);
            fresh = λ i e z h. absurd (omega (arith, z));
            once = v.once;
          }))
      | inr (k, found) ↦
          let at = first_index-IsFirst is_free st.pingpacket k found in
          rw found (
            rw next (record {
              few = room;
              below = λ i e h. omega (arith, sent-below st now v room k at i e h);
              fresh = λ i e z h. absurd (omega (arith, z));
              once = sent-once st now v room k at;
            }))
    ]

abbrev pub unused : Packet
unused = record { tv_begin = record { tv_sec = pos 0; tv_usec = pos 0 }; seq = 0; flag = 0 }

abbrev pub unused_packets : ℕ → List Packet
unused_packets zero = []
unused_packets (suc n) = unused ∷ unused_packets n

-- The variables as main sets them.
abbrev pub at_start : Ping
at_start = record { pingpacket = unused_packets 128; packet_send = 0; packet_recv = 0 }

unused_at :
    (n i : ℕ) (e : Packet) → get_elem? (unused_packets n) i ≡ some e → (e.seq ≡ 0) × (e.flag ≡ 0)
unused_at zero i e h = cc
unused_at (suc n) zero e h = rw (sym (Option.some_inj.0 h)) (refl, refl)
unused_at (suc n) (suc i) e h = unused_at n i e h

at_start-Sound : Sound at_start
at_start-Sound = record {
  few = omega arith;
  below = λ i e h. omega (arith, (unused_at 128 i e h).0);
  fresh = λ i e z h. (unused_at 128 i e h).1;
  once = λ i j e f lt hi hj same. (unused_at 128 j f hj).1;
}

-- A run of the program: rounds in which sendto succeeds, as long as the numbers fit a short, and
-- messages that are received, among them any replies.
pub data Runs (pid : ℕ) : Ping → Type 0 where
  begins : Runs pid at_start
  sends :
      {st : Ping} (now : Timeval)
      → Runs pid st
      → st.packet_send + 1 < 2 ^ 15
      → Runs pid (icmp_send pid now true st).1
  receives :
      {st st' : Ping} {line : PrintedReply} (now : Timeval) (buf : List ℕ)
      → Runs pid st
      → icmp_unpack pid now buf st ≡ some (line, st')
      → Runs pid st'

count_reply-Sound :
    (now : Timeval) (len seq ttl : ℕ) (place : Option ℕ) (st : Ping) {r : PrintedReply × Ping}
    → Sound st
    → count_reply now len seq ttl place st ≡ some r
    → Sound r.1
unfolding count_reply
count_reply-Sound now len seq ttl none st v h = cc
count_reply-Sound now len seq ttl (some i) st v h =
    let (e, at, is) = >>=-eq-some (get_elem? st.pingpacket i) _ h in
    subst (λ (r : PrintedReply × Ping). Sound r.1) (Option.some_inj.0 is)
      (answered-Sound st i ((st.packet_recv + 1) % 2 ^ 16) e v at)

otherwise {ℓ} :
    {A : Type ℓ} (c : Bool) (o : Option A) {y : A} → (if c then none else o) ≡ some y → o ≡ some y
otherwise true o h = cc
otherwise false o h = h

icmp_unpack-count :
    (pid : ℕ) (now : Timeval) (buf : List ℕ) (st : Ping) {r : PrintedReply × Ping}
    → icmp_unpack pid now buf st ≡ some r
    → (len : ℕ) × (seq : ℕ) × (ttl : ℕ) × (count_reply now len seq ttl
          (first_index (has_seq seq) st.pingpacket)
          st
        ≡ some r)
unfolding icmp_unpack
icmp_unpack-count pid now buf st h =
    let (v, _, h0) = >>=-eq-some (get_elem? buf 0) _ h in
    let (kind, _, h1) = >>=-eq-some (get_elem? buf (v % 16 * 4)) _ h0 in
    let (id0, _, h2) = >>=-eq-some (get_elem? buf (v % 16 * 4 + 4)) _ h1 in
    let (id1, _, h3) = >>=-eq-some (get_elem? buf (v % 16 * 4 + 5)) _ h2 in
    let (seq0, _, h4) = >>=-eq-some (get_elem? buf (v % 16 * 4 + 6)) _ h3 in
    let (seq1, _, h5) = >>=-eq-some (get_elem? buf (v % 16 * 4 + 7)) _ h4 in
    let (ttl, _, h6) = >>=-eq-some (get_elem? buf 8) _ h5 in (_, _, _, otherwise _ _ h6)

pub Runs-Sound : {pid : ℕ} {st : Ping} → Runs pid st → Sound st
Runs-Sound begins = at_start-Sound
Runs-Sound {pid} (sends {st} now r room) = icmp_send-Sound pid now st (Runs-Sound r) room
Runs-Sound {pid} (receives {st} now buf r h) =
    let (len, seq, ttl, counted) = icmp_unpack-count pid now buf st h in
    count_reply-Sound now len seq ttl (first_index (has_seq seq) st.pingpacket) st (Runs-Sound r)
      counted

-- A packet that is outstanding is the first with its number.
pub outstanding_found :
    (st : Ping) (i : ℕ) (e : Packet)
    → Sound st
    → get_elem? st.pingpacket i ≡ some e
    → e.flag ≢ 0
    → IsFirst (has_seq e.seq) st.pingpacket i
outstanding_found st i e v at out = (
  e,
  at,
  ground (arith, v.few, v.below i e at),
  λ j f lt at'. elim (Bool-cases (has_seq e.seq f)) [
    | inl same ↦ absurd (
        out
          (v.once j i f e lt at' at (ground (arith, same, v.few, v.below i e at, v.below j f at'))))
    | inr other ↦ other
  ],
)
