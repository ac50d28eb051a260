-- ===== src/Ping.antt =====
-- LinuxCode/13/13.6.10/ping.c: the checksum, the message, the table of the packets that were sent, a
-- round of icmp_send and the handling of what icmp_recv reads. A round and the handling of a packet are
-- one step each. A short is its 16 bits; the length of a message is below 2^16.
pub mod Message
pub mod Table
pub mod Replies
pub mod Answered
pub mod Numbers
use mathlib.Core.Option
use linux_program_practice.Base.{
  ℕ, zero, suc, ◌+◌, ◌-◌, ◌*◌, ◌/◌, ◌%◌, ◌^◌, ◌≤◌, Bool, true, false, not, ◌&&◌, Option, none, some,
  List, [], ◌∷◌, ◌++◌, ltb, leb, ◌==◌, if◌then◌else◌, ◌>>=◌, length, get_elem?, set, take, drop,
  ◌<◌, min, ◌≡◌, refl, sym, ap, subst, ◌∙◌, ◌≢◌, ◌↔◌, ◌⊎◌, inl, inr, ◌||◌, map, append-nil,
  append_assoc, arith, ltb→lt, lt→ltb, leb→le, ==_iff, &&_iff, Bool-cases, Option-cases,
  >>=-eq-some, All, length-append, length-set, get_elem?-set_self, get_elem?-set_ne, All-set,
  All-get, take-append-drop, length-take, length-drop, codes, get_elem?-append, set-append,
  All-append, take-append, drop-append, get_elem?-none, get_elem?-lt, get_elem?-outside,
}
use linux_program_practice.Base.Int.{
  ℤ, pos, negsuc, pos_part, neg_part, sub_ℕ, ltb_ℤ, eqb_ℤ, predecessor, signed32,
}

-- The loop of icmp_cksum: the sum of the words in memory, where the last byte is shifted up.
unfoldable pub sum_words : (len : ℕ) → List ℕ → (sum : ℕ) → Option ℕ
sum_words zero bytes sum = some sum
sum_words (suc zero) [] sum = none
sum_words (suc zero) (b ∷ bytes) sum = some (sum + b * 256)
sum_words (suc (suc len)) [] sum = none
sum_words (suc (suc len)) (b ∷ []) sum = none
sum_words (suc (suc len)) (b ∷ c ∷ bytes) sum = sum_words len bytes (sum + (b + 256 * c))

abbrev pub fold_sum : ℕ → ℕ
fold_sum sum = let once = sum / 2 ^ 16 + sum % 2 ^ 16 in once + once / 2 ^ 16

-- icmp_cksum
unfoldable pub icmp_cksum : List ℕ → (len : ℕ) → Option ℕ
unfolding sum_words
icmp_cksum bytes len = do sum ← sum_words len bytes 0; some (2 ^ 16 - 1 - fold_sum sum % 2 ^ 16)

-- A word in memory.
abbrev pub word : ℕ → List ℕ
word v = v % 256 ∷ v / 256 % 256 ∷ []

-- icmp_data, from `i` on: the loop counts in an unsigned char.
abbrev pub pattern_from : (i n : ℕ) → List ℕ
pattern_from i zero = []
pattern_from i (suc n) = i ∷ pattern_from (i + 1) n

abbrev pub buffersize : ℕ
buffersize = 72

-- icmp_pack, into a buffer that holds `buffersize` bytes
unfoldable pub icmp_pack : (pid seq length : ℕ) → Option (List ℕ)
icmp_pack pid seq length = do
  let id = pid % 2 ^ 16
  let body = word id ++ (word (seq % 2 ^ 16) ++ pattern_from 0 length)
  v ← icmp_cksum (8 ∷ 0 ∷ 0 ∷ 0 ∷ body) length
  if ltb buffersize (8 + length) then none else some (8 ∷ 0 ∷ (word v ++ body))

-- struct timeval
pub record Timeval : Type 0 where
  pub tv_sec : ℤ
  pub tv_usec : ℤ

abbrev pub difference : ℤ → ℤ → ℤ
difference a b = sub_ℕ (pos_part a + neg_part b) (neg_part a + pos_part b)

-- icmp_tvsub
unfoldable pub icmp_tvsub : (end' begin : Timeval) → Timeval
icmp_tvsub end' begin =
    let sec = difference end'.tv_sec begin.tv_sec in
    let usec = difference end'.tv_usec begin.tv_usec in
    if ltb_ℤ usec (pos 0)
    then record { tv_sec = predecessor sec; tv_usec = difference usec (negsuc 999999) }
    else record { tv_sec = sec; tv_usec = usec }

-- An int, of a long.
abbrev pub int_of_long : ℤ → ℤ
int_of_long z = signed32 ((pos_part z % 2 ^ 32 + (2 ^ 32 - neg_part z % 2 ^ 32)) % 2 ^ 32)

-- tv_sec*1000+tv_usec/1000
abbrev pub millis : Timeval → ℤ
millis t =
    sub_ℕ (pos_part t.tv_sec * 1000 + pos_part t.tv_usec / 1000)
      (neg_part t.tv_sec * 1000 + neg_part t.tv_usec / 1000)

-- pingm_pakcet; `tv_end` is never used.
pub record Packet : Type 0 where
  pub tv_begin : Timeval
  pub seq : ℕ
  pub flag : ℕ

abbrev pub signed16 : ℕ → ℤ
signed16 w = if ltb w (2 ^ 15) then pos w else negsuc (2 ^ 16 - w - 1)

-- icmp_findpacket: the first packet with a property, for -1 one that is free.
pub first_index : (Packet → Bool) → List Packet → Option ℕ
first_index p [] = none
first_index p (x ∷ xs) = if p x then some 0 else Option.map suc (first_index p xs)

abbrev pub is_free : Packet → Bool
is_free e = e.flag == 0

abbrev pub has_seq : ℕ → Packet → Bool
has_seq seq e = eqb_ℤ (signed16 e.seq) (pos seq)

-- The variables of the program that its threads share.
pub record Ping : Type 0 where
  pub pingpacket : List Packet
  pub packet_send : ℕ
  pub packet_recv : ℕ

abbrev pub start_packet : Timeval → ℕ → Option ℕ → List Packet → List Packet
start_packet now seq none packets = packets
start_packet now seq (some i) packets =
    set packets i (record { tv_begin = now; seq = seq; flag = 1 })

-- A round of icmp_send at time `now`, where sendto succeeds or not: what it sends, and the state.
unfoldable pub icmp_send : (pid : ℕ) → Timeval → (sent : Bool) → Ping → Option (List ℕ) × Ping
unfolding first_index
icmp_send pid now sent st = (
  icmp_pack pid st.packet_send 64,
  record {
    pingpacket = start_packet now st.packet_send (first_index is_free st.pingpacket) st.pingpacket;
    packet_send = if sent then (st.packet_send + 1) % 2 ^ 16 else st.packet_send;
    packet_recv = st.packet_recv;
  },
)

-- What is printed of a reply: its length, number and time to live, and the round trip.
pub record PrintedReply : Type 0 where
  pub len : ℕ
  pub icmp_seq : ℕ
  pub ttl : ℕ
  pub rtt : ℤ

-- The part of icmp_unpack for an echo reply with number `seq`.
unfoldable pub count_reply :
    (now : Timeval) → (len seq ttl : ℕ) → Option ℕ → Ping → Option (PrintedReply × Ping)
count_reply now len seq ttl none st = none
count_reply now len seq ttl (some i) st = do
  e ← get_elem? st.pingpacket i
  let line : PrintedReply = record {
    len = len;
    icmp_seq = seq;
    ttl = ttl;
    rtt = int_of_long (millis (icmp_tvsub now e.tv_begin));
  }
  some (
    line,
    record st {
      pingpacket = set st.pingpacket i (record e { flag = 0 });
      packet_recv = (st.packet_recv + 1) % 2 ^ 16;
    },
  )

-- icmp_unpack, where recv has put `buf` into the buffer and the clock says `now`; `none` stands for -1,
-- or for a message that the buffer does not hold.
unfoldable pub icmp_unpack :
    (pid : ℕ) → Timeval → (buf : List ℕ) → Ping → Option (PrintedReply × Ping)
unfolding first_index
icmp_unpack pid now buf st = do
  v ← get_elem? buf 0
  let iphdrlen = v % 16 * 4
  kind ← get_elem? buf iphdrlen
  id0 ← get_elem? buf (iphdrlen + 4)
  id1 ← get_elem? buf (iphdrlen + 5)
  seq0 ← get_elem? buf (iphdrlen + 6)
  seq1 ← get_elem? buf (iphdrlen + 7)
  ttl ← get_elem? buf 8
  let seq = seq0 + 256 * seq1
  let reply =
      count_reply now (length buf - iphdrlen) seq ttl (first_index (has_seq seq) st.pingpacket) st
  if ltb (length buf) (iphdrlen + 8) || not (kind == 0 && id0 + 256 * id1 == pid)
      then none
      else reply
