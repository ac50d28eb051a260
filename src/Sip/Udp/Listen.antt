-- ===== src/Sip/Udp/Listen.antt =====
-- Binding a control block to a port, and receiving there.
use linux_program_practice.Base.Int.{pos}
use linux_program_practice.Sip.Udp.Chains.{Chain, Without, seen_in-Chain, Chain-put_pcb}
use linux_program_practice.Sip.Udp.{Udp, UdpPcb, udp_htable_size, put_pcb, udp_bind}
use linux_program_practice.Base.Run.{fault, ret}
use linux_program_practice.Base.{
  ℕ, ◌%◌, ◌≤◌, ◌<◌, ◌≡◌, refl, sym, ◌≢◌, true, false, Option, some, List, ◌∷◌, arith, ◌==◌, length,
  get_elem?, set, get_elem?-set_self, get_elem?-set_ne, get_elem?-outside,
}

-- The control block at `a`, bound to a port, in front of the list that began at `head`.
abbrev pub bound : UdpPcb → (ipaddr port : ℕ) → (head : Option ℕ) → UdpPcb
bound k ipaddr port head = record k { ip_local = ipaddr; port_local = port; next = head }

-- What a control block at `a` bound to `port` means: it is in front of the list of its port, whose
-- other control blocks are as before, and all other lists begin where they did.
pub record Listening (a ipaddr port : ℕ) (k : UdpPcb) (head : Option ℕ) (bs : List ℕ) (st u : Udp)
    : Type 0 where
  pub here : u.pcbs a ≡ some (bound k ipaddr port head)
  pub chain : Chain u.pcbs (some a) (a ∷ bs)
  pub first : get_elem? u.table port ≡ some (some a)
  pub others : (b : ℕ) → b ≢ a → u.pcbs b ≡ st.pcbs b
  pub lists : (q : ℕ) → q ≢ port → get_elem? u.table q ≡ get_elem? st.table q
  pub index : u.index ≡ st.index
  pub waiting : u.waiting ≡ st.waiting
  pub posted : u.posted ≡ st.posted

module _ (fuel a ipaddr port : ℕ) (st : Udp) (k : UdpPcb) (head : Option ℕ) (bs : List ℕ)
    (size : length st.table ≡ udp_htable_size) (positive : 0 < port) (here : st.pcbs a ≡ some k)
    (chain : Chain st.pcbs head bs) (new : Without a bs) (enough : length bs < fuel) where
  after : Udp
  after =
      let one = put_pcb a (some (record k { ip_local = ipaddr })) st.pcbs in
      let two = put_pcb a (some (record k { ip_local = ipaddr; port_local = port })) one in
      record st {
        table = set st.table port (some a);
        pcbs = put_pcb a (some (bound k ipaddr port head)) two;
      }

  -- Binding a control block that is in no list to a port from 1 to 127: it is put in front of the list
  -- of that port, and no other control block, list, counter, queue or semaphore changes.
  pub udp_bind-Listening :
      port < udp_htable_size
      → get_elem? st.table port ≡ some head
      → (u : Udp) × (udp_bind fuel a ipaddr port st ≡ ret (pos 0, u))
        × Listening a ipaddr port k head bs st u
  unfolding udp_bind after
  udp_bind-Listening small place =
      let itself : (a == a) ≡ true = ground arith in
      let same : port % 128 ≡ port = omega arith in
      let nonzero : (port == 0) ≡ false = ground arith in
      let unseen = seen_in-Chain fuel a false st.pcbs head bs chain new enough in
      let one = put_pcb a (some (record k { ip_local = ipaddr })) st.pcbs in
      let two = put_pcb a (some (record k { ip_local = ipaddr; port_local = port })) one in
      let moved =
        Chain-put_pcb two a (some (bound k ipaddr port head)) head bs
          (Chain-put_pcb one a (some (record k { ip_local = ipaddr; port_local = port })) head bs
            (Chain-put_pcb st.pcbs a (some (record k { ip_local = ipaddr })) head bs chain new) new)
          new in
      (
        after,
        rw same
            (rw place (rw unseen (rw here (rw nonzero (rw itself (rw place (rw itself refl))))))),
        record {
          here = rw itself refl;
          chain = (bound k ipaddr port head, refl, rw itself refl, moved);
          first = get_elem?-set_self st.table port (some a) head place;
          others = λ b ne. ground (arith, ne);
          lists = λ q ne. get_elem?-set_ne st.table port q (some a) (λ e. ne (sym e));
          index = refl;
          waiting = refl;
          posted = refl;
        },
      )

  -- Binding to any other port reads behind the array of lists.
  pub udp_bind_beyond :
      udp_htable_size ≤ port
      → get_elem? st.table (port % udp_htable_size) ≡ some head
      → udp_bind fuel a ipaddr port st ≡ fault
  unfolding udp_bind
  udp_bind_beyond large place =
      let itself : (a == a) ≡ true = ground arith in
      let nonzero : (port == 0) ≡ false = ground arith in
      let unseen = seen_in-Chain fuel a false st.pcbs head bs chain new enough in
      let outside = get_elem?-outside st.table port (omega arith) in
      rw place (rw unseen (rw here (rw nonzero (rw itself (rw outside refl)))))
