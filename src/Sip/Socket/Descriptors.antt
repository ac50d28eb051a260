-- ===== src/Sip/Socket/Descriptors.antt =====
-- Descriptors of sockets.
use linux_program_practice.Base.{
  ℕ, suc, ◌+◌, ◌≡◌, refl, sym, ap, subst, ◌∙◌, ◌≢◌, ◌⊎◌, inl, inr, true, false, Option, none, some,
  List, [], ◌∷◌, arith, leb, ◌==◌, ==_iff, Bool-cases, Option-cases, length, get_elem?, set, All,
  length-set, get_elem?-set_self, get_elem?-set_ne, get_elem?-none, get_elem?-lt,
}
use mathlib.Core.Option
use linux_program_practice.Base.Int.{ℤ, pos, negsuc, eqb_ℤ}
use linux_program_practice.Sip.Socket.{
  Sock, SipSocket, num_sockets, Stack, put_sock, get_socket, alloc_from, alloc_result, alloc_socket,
  sock_delete, install, sip_socket, closed, sip_close, close_at, sock_dgram, af_inet, owner,
}

-- The struct sock at `a` is that of descriptor `i`; it has no control block.
abbrev pub Numbered : Stack → ℕ → ℕ → Type 0
Numbered st i a = (k : Sock) × (st.socks a ≡ some k) × (k.socket ≡ pos i) × (k.pcb ≡ none)

pub record Inv (st : Stack) : Type 0 where
  pub four : length st.sockets ≡ num_sockets
  pub numbered :
      (i a : ℕ) (e : SipSocket)
      → get_elem? st.sockets i ≡ some e
      → e.sock ≡ some a
      → Numbered st i a

abbrev pub Used : SipSocket → Type 0
Used e = e.sock ≢ none

abbrev pub fresh_entry : ℕ → SipSocket
fresh_entry a = record { sock = some a; lastdata = none; lastoffset = 0; err = pos 0 }

-- What alloc_socket finds: no free element, or the first free one.
abbrev Allocated : ℕ → ℕ → List SipSocket → Option (ℕ × List SipSocket) → Type 0
Allocated a i es none = All Used es
Allocated a i es (some r) =
    (n : ℕ) × (e : SipSocket) × (r.0 ≡ i + n)
    × (get_elem? es n ≡ some e)
    × (e.sock ≡ none)
    × (r.1 ≡ set es n (fresh_entry a))

behind-Allocated :
    (a i : ℕ) (e : SipSocket) (es : List SipSocket) (o : Option (ℕ × List SipSocket))
    → Used e
    → Allocated a (suc i) es o
    → Allocated a i (e ∷ es) (Option.map (λ r. (r.0, e ∷ r.1)) o)
behind-Allocated a i e es none used rest = (used, rest)
behind-Allocated a i e es (some r) used (n, q, at_place, found, free, is) =
    (suc n, q, omega arith, found, free, ap (◌∷◌ e) is)

alloc_from-Allocated : (a i : ℕ) (es : List SipSocket) → Allocated a i es (alloc_from a i es)
unfolding alloc_from
alloc_from-Allocated a i [] = tt
alloc_from-Allocated a i (e ∷ es) = step e.sock refl (alloc_from-Allocated a (suc i) es)
  where
    step :
        (o : Option ℕ)
        → e.sock ≡ o
        → Allocated a (suc i) es (alloc_from a (suc i) es)
        → Allocated a i (e ∷ es) (elim o [
          | none ↦ some (i, fresh_entry a ∷ es)
          | some b ↦ Option.map (λ r. (r.0, e ∷ r.1)) (alloc_from a (suc i) es)
        ])
    step none q rest = (0, e, omega arith, refl, q, refl)
    step (some b) q rest =
        behind-Allocated a i e es (alloc_from a (suc i) es) (λ h. ground (arith, q, h)) rest

-- What sip_socket leaves for a datagram socket: -1 where every element is used, with nothing
-- changed in the table, or the number of a free one, which then stands for the new struct sock.
abbrev pub Opened : ℕ → Stack → ℤ × Stack → Type 0
Opened a st r =
    ((r.0 ≡ negsuc 0) × All Used st.sockets × (r.1.sockets ≡ st.sockets))
    ⊎ ((i : ℕ) × (e : SipSocket) × (r.0 ≡ pos i)
        × (get_elem? st.sockets i ≡ some e)
        × (e.sock ≡ none)
        × (r.1.sockets ≡ set st.sockets i (fresh_entry a))
        × Numbered r.1 i a)

install-Opened :
    (a : ℕ) (st : Stack) (k : Sock) (o : Option (ℕ × List SipSocket))
    → st.socks a ≡ some k
    → k.pcb ≡ none
    → Allocated a 0 st.sockets o
    → Opened a st (install a (alloc_result st o))
install-Opened a st k none here no_pcb used = inl (refl, used, refl)
install-Opened a st k (some (j, es)) here no_pcb (n, e, place, found, free, is) =
    let number : eqb_ℤ (pos j) (negsuc 0) ≡ false = ground arith in
    let same : j ≡ n = place ∙ omega arith in
    let here_itself : (a == a) ≡ true = ground arith in
    rw number (
      inr (
        n,
        e,
        ap pos same,
        found,
        free,
        is,
        (record k { socket = pos j }, rw (here_itself, here) refl, ap pos same, no_pcb),
      ))

-- The other struct socks are left alone.
install-others :
    (a b : ℕ) (st : Stack) (o : Option (ℕ × List SipSocket))
    → b ≢ a
    → (install a (alloc_result st o)).1.socks b ≡ st.socks b
install-others a b st none ne = ground (arith, ne)
install-others a b st (some r) ne = ground (arith, ne)

-- The struct sock of a used element is not the new one.
not_new : (st : Stack) (i a b : ℕ) → st.socks a ≡ none → Numbered st i b → b ≢ a
not_new st i a b fresh (k, here, _, _) e = none≢some (sym fresh ∙ ap st.socks (sym e) ∙ here)
  where
    none≢some : none ≡ some k → ⊥
    none≢some q = cc

fresh_owner : (a b : ℕ) (e : SipSocket) → some (fresh_entry a) ≡ some e → e.sock ≡ some b → a ≡ b
fresh_owner a b e q h = cc

module _ (a : ℕ) (st : Stack) (inv : Inv st) (fresh : st.socks a ≡ none) where
  kept :
      (r : Stack) (i b : ℕ)
      → ((c : ℕ) → c ≢ a → r.socks c ≡ st.socks c)
      → Numbered st i b
      → Numbered r i b
  kept r i b others (k, here, number, no_pcb) =
      (k, others b (not_new st i a b fresh (k, here, number, no_pcb)) ∙ here, number, no_pcb)

  Opened-Inv :
      (r : ℤ × Stack) → ((c : ℕ) → c ≢ a → r.1.socks c ≡ st.socks c) → Opened a st r → Inv r.1
  Opened-Inv r others (inl (_, _, same)) = record {
    four = rw same inv.four;
    numbered = λ i b e found owned.
        kept r.1 i b others (inv.numbered i b e (ap (λ t. get_elem? t i) (sym same) ∙ found) owned);
  }
  Opened-Inv r others (inr (j, q, _, place, free, is, new)) = record {
    four = rw is (length-set st.sockets j (fresh_entry a) ∙ inv.four);
    numbered = λ i b e found owned. elim (Bool-cases (j == i)) [
      | inl this ↦
          let here : j ≡ i = (==_iff j i).0 this in
          let stands = sym (get_elem?-set_self st.sockets j (fresh_entry a) q place) in
          let a_is =
            fresh_owner a b e
              (stands ∙ ap (λ t. get_elem? t j) (sym is) ∙ ap (get_elem? r.1.sockets) here ∙ found)
              owned in
          subst (λ x. Numbered r.1 x b) here (subst (Numbered r.1 j) a_is new)
      | inr other ↦ kept r.1 i b others (
          inv.numbered i b e
            (sym (get_elem?-set_ne st.sockets j i (fresh_entry a) (λ h. ground (arith, other, h)))
              ∙ ap (λ t. get_elem? t i) (sym is)
              ∙ found)
            owned)
    ];
  }

-- Opening a datagram socket, where malloc gives an address that is not in use: -1 is returned where
-- all four descriptors are used, with the table unchanged; else the number of an unused element is,
-- and this element now stands for the new struct sock. Either way every used element still stands
-- for a struct sock of its own number, and no struct sock has a control block.
pub sip_socket-Opened :
    (a : ℕ) (st : Stack) (r : ℤ × Stack)
    → Inv st
    → st.socks a ≡ none
    → sip_socket af_inet sock_dgram 0 (some a) true st ≡ some r
    → Opened a st r × Inv r.1
unfolding sip_socket alloc_socket
sip_socket-Opened a st r inv fresh e =
    let k : Sock = record { kind = sock_dgram; pcb = none; err = pos 0; socket = negsuc 0 } in
    let u = record st { socks = put_sock a (some k) st.socks } in
    let o = alloc_from a 0 st.sockets in
    let is : install a (alloc_result u o) ≡ r = some_injective e in
    let itself : (a == a) ≡ true = ground arith in
    let opened =
      install-Opened a u k o (rw itself refl) refl (alloc_from-Allocated a 0 st.sockets) in
    let others : (c : ℕ) → c ≢ a → (install a (alloc_result u o)).1.socks c ≡ st.socks c =
      λ c ne. install-others a c u o ne ∙ ground (arith, ne) in
    subst (λ (x : ℤ × Stack). Opened a st x × Inv x.1) is
      (opened, Opened-Inv a st inv fresh (install a (alloc_result u o)) others opened)
  where
    some_injective : {x y : ℤ × Stack} → some x ≡ some y → x ≡ y
    some_injective q = cc

-- An element that stands for a struct sock, at a descriptor.
abbrev pub Open : Stack → ℕ → ℕ → Type 0
Open st i a = (e : SipSocket) × (get_elem? st.sockets i ≡ some e) × (e.sock ≡ some a)

-- What get_socket answers.
abbrev pub Answer : Stack → ℕ → Type 0
Answer st i =
    (get_socket (pos i) st ≡ some none)
    ⊎ ((a : ℕ) × Open st i a × (get_socket (pos i) st ≡ some (some (i, a))))

get_socket-unused :
    (st : Stack) (i : ℕ) (e : SipSocket)
    → get_elem? st.sockets i ≡ some e
    → e.sock ≡ none
    → get_socket (pos i) st ≡ some none
unfolding get_socket
get_socket-unused st i e found unused = elim (Bool-cases (leb num_sockets i)) [
  | inl beyond ↦ rw beyond refl
  | inr within ↦ rw (within, found, unused) refl
]

owner_lem :
    (i a : ℕ) (socks : ℕ → Option Sock) (e : SipSocket) (k : Sock)
    → e.sock ≡ some a
    → socks a ≡ some k
    → k.socket ≡ pos i
    → owner (pos i) socks e ≡ some (some a)
owner_lem i a socks e k owned here number = ground (arith, owned, here, number)

pub get_socket-Open :
    (st : Stack) (i a : ℕ) → Inv st → Open st i a → get_socket (pos i) st ≡ some (some (i, a))
unfolding get_socket
get_socket-Open st i a inv (e, found, owned) =
    let (k, here, number, _) = inv.numbered i a e found owned in
    let within : leb num_sockets i ≡ false =
      ground (arith, inv.four, get_elem?-lt st.sockets i e found) in
    rw (within, found)
      (ap (Option.map (Option.map (λ b. (i, b)))) (owner_lem i a st.socks e k owned here number))

get_socket-beyond :
    (st : Stack) (i : ℕ) → leb num_sockets i ≡ true → get_socket (pos i) st ≡ some none
unfolding get_socket
get_socket-beyond st i beyond = rw beyond refl

pub get_socket-Answer : (st : Stack) (i : ℕ) → Inv st → Answer st i
get_socket-Answer st i inv = elim (Bool-cases (leb num_sockets i)) [
  | inl beyond ↦ inl (get_socket-beyond st i beyond)
  | inr within ↦ elim (Option-cases (get_elem? st.sockets i)) [
    | inl missing ↦ absurd (ground (arith, within, inv.four, get_elem?-none st.sockets i missing))
    | inr (e, found) ↦ elim (Option-cases e.sock) [
      | inl unused ↦ inl (get_socket-unused st i e found unused)
      | inr (a, owned) ↦ inr (a, (e, found, owned), get_socket-Open st i a inv (e, found, owned))
    ]
  ]
]

closed_unowned : (e q : SipSocket) (b : ℕ) → some (closed e) ≡ some q → q.sock ≡ some b → ⊥
closed_unowned e q b same owns = cc

-- A struct sock has one number.
one_number :
    (m : ℕ → Option Sock) (a b : ℕ) (k l : Sock) (i j : ℕ)
    → m a ≡ some k
    → m b ≡ some l
    → k.socket ≡ pos i
    → l.socket ≡ pos j
    → b ≡ a
    → i ≡ j
one_number m a b k l i j ea eb ei ej e = cc

-- What sip_close leaves.
abbrev pub Closed : ℕ → Stack → ℤ × Stack → Type 0
Closed i st r =
    ((r ≡ (negsuc 0, st)) × (get_socket (pos i) st ≡ some none))
    ⊎ ((a : ℕ) × Open st i a
        × (r.0 ≡ pos 0)
        × (get_socket (pos i) r.1 ≡ some none)
        × (r.1.socks a ≡ none))

module _ (i a : ℕ) (st : Stack) (inv : Inv st) (e : SipSocket)
    (found : get_elem? st.sockets i ≡ some e) (owned : e.sock ≡ some a) where
  abbrev after : Stack
  after = sock_delete a (record st { sockets = set st.sockets i (closed e) })

  after-Inv : Inv after
  after-Inv = record {
    four = length-set st.sockets i (closed e) ∙ inv.four;
    numbered = λ j b q place owns. elim (Bool-cases (i == j)) [
      | inl this ↦
          let stands =
            sym (get_elem?-set_self st.sockets i (closed e) e found)
            ∙ ap (get_elem? after.sockets) ((==_iff i j).0 this)
            ∙ place in
          absurd (closed_unowned e q b stands owns)
      | inr other ↦
          let apart : i ≢ j = λ h. ground (arith, other, h) in
          let before = sym (get_elem?-set_ne st.sockets i j (closed e) apart) ∙ place in
          let (k, here, number, no_pcb) = inv.numbered j b q before owns in
          let (l, here', number', _) = inv.numbered i a e found owned in
          let ne : b ≢ a =
            λ h. apart (one_number st.socks a b l k i j here' here number' number h) in
          (k, ground (arith, ne, here), number, no_pcb)
    ];
  }

  after_closed : sip_close (pos i) st ≡ some (pos 0, after)
  unfolding sip_close
  after_closed = rw (get_socket-Open st i a inv (e, found, owned)) (ap (close_at i a st) found)

  after-Closed : Closed i st (pos 0, after)
  after-Closed =
      let itself : (a == a) ≡ true = ground arith in
      inr (
        a,
        (e, found, owned),
        refl,
        get_socket-unused after i (closed e) (get_elem?-set_self st.sockets i (closed e) e found)
            refl,
        rw itself refl,
      )

-- sip_close returns, with every used element still standing for a struct sock of its own number.
-- Either the descriptor was refused by get_socket, and -1 is returned with nothing changed, or its
-- struct sock is freed, and get_socket refuses the descriptor from then on.
pub sip_close-Closed :
    (i : ℕ) (st : Stack)
    → Inv st
    → (r : ℤ × Stack) × (sip_close (pos i) st ≡ some r) × Inv r.1 × Closed i st r
unfolding sip_close
sip_close-Closed i st inv = elim (get_socket-Answer st i inv) [
  | inl refused ↦ ((negsuc 0, st), rw refused refl, inv, inl (refl, refused))
  | inr (a, (e, found, owned), _) ↦ (
    (pos 0, after i a st inv e found owned),
    after_closed i a st inv e found owned,
    after-Inv i a st inv e found owned,
    after-Closed i a st inv e found owned,
  )
]
