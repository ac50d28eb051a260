-- ===== src/Sip/Udp/Input.antt =====
-- What becomes of a datagram that comes in for a control block.
use linux_program_practice.Base.Int.{ℤ, pos}
use linux_program_practice.Sip.Udp.Listen.{Listening}
use linux_program_practice.Sip.Udp.Chains.{Chain, follow-Found, wander-Chain, Found}
use linux_program_practice.Sip.Udp.{
  Udp, udp_input, UdpPcb, follow, udp_htable_size, enqueue, post, receive,
}
use linux_program_practice.Base.Run.{Run, and_then, ret, fault}
use linux_program_practice.Base.{
  ℕ, zero, suc, ◌%◌, ◌≤◌, ◌<◌, ◌≡◌, refl, ap, subst, ◌∙◌, inl, inr, true, false, Option, none, some,
  List, [], ◌∷◌, ◌++◌, arith, ◌==◌, ==_iff, Option-cases, length, get_elem?, All, length-append,
}

-- After a control block with a struct sock was bound to a port, a datagram for this port is put into
-- the empty list of this struct sock, and its semaphore posted.
pub udp_input-Listening :
    (fuel a ipaddr port s skb : ℕ) (k : UdpPcb) (head : Option ℕ) (bs : List ℕ) (st u : Udp)
    → port < udp_htable_size
    → 0 < fuel
    → Listening a ipaddr port k head bs st u
    → k.sock ≡ some s
    → st.waiting s ≡ []
    → udp_input fuel port skb u ≡ ret (none, post s (skb ∷ []) u)
unfolding udp_input follow
udp_input-Listening zero a ipaddr port s skb k head bs st u small positive l sock empty =
    absurd (omega arith)
udp_input-Listening (suc fuel) a ipaddr port s skb k head bs st u small positive l sock empty =
    let same : port % 128 ≡ port = omega arith in
    let itself : (port == port) ≡ true = ground arith in
    let nothing : u.waiting s ≡ [] = ap (λ w. w s) l.waiting ∙ empty in
    rw same (
      rw l.first (
        rw l.here (
          rw itself (
            rw l.here (
              rw sock (
                ap (λ q. and_then (enqueue (suc fuel) skb a s q u) λ v. ret (none, v)) nothing))))))

-- A control block of the list that is bound to another port.
abbrev pub OfOther : ℕ → Udp → ℕ → Type 0
OfOther port st b = (p : UdpPcb) × (st.pcbs b ≡ some p) × ((p.port_local == port) ≡ false)

-- `p` at `b` is the first control block of the list that is bound to the port.
pub record FirstBound (port : ℕ) (bs : List ℕ) (st : Udp) (b : ℕ) (p : UdpPcb) : Type 0 where
  pub before : List ℕ
  pub behind : List ℕ
  pub parts : bs ≡ before ++ b ∷ behind
  pub others : All (OfOther port st) before
  pub here : st.pcbs b ≡ some p
  pub at_port : p.port_local ≡ port

-- What SIP_UDPInput does with a datagram, by the control blocks in the list.
pub data Received (port skb : ℕ) (bs : List ℕ) (st : Udp) : Run (Option ℤ × Udp) → Type 0 where
  unbound : All (OfOther port st) bs → Received port skb bs st (ret (some (pos 0), st))
  no_sock :
      (b : ℕ) (p : UdpPcb)
      → FirstBound port bs st b p
      → p.sock ≡ none
      → Received port skb bs st (ret (some (pos 1), st))
  queued :
      (b s : ℕ) (p : UdpPcb)
      → FirstBound port bs st b p
      → p.sock ≡ some s
      → length (st.waiting s) ≤ 1
      → Received port skb bs st (ret (none, post s (st.waiting s ++ skb ∷ []) st))
  too_many :
      (b s : ℕ) (p : UdpPcb)
      → FirstBound port bs st b p
      → p.sock ≡ some s
      → 2 ≤ length (st.waiting s)
      → Received port skb bs st fault

enqueue-Received :
    (fuel port skb b s : ℕ) (st : Udp) (p : UdpPcb) (bs cs queue : List ℕ)
    → FirstBound port bs st b p
    → p.sock ≡ some s
    → Chain st.pcbs (some b) cs
    → length cs < fuel
    → st.waiting s ≡ queue
    → Received port skb bs st (and_then (enqueue fuel skb b s queue st) λ u. ret (none, u))
enqueue-Received fuel port skb b s st p bs cs [] first sock chain enough is =
    subst (λ q. Received port skb bs st (ret (none, post s q st))) (ap (λ q. q ++ skb ∷ []) is)
      (queued b s p first sock (rw is (omega arith)))
enqueue-Received fuel port skb b s st p bs cs (d ∷ []) first sock chain enough is =
    subst (λ q. Received port skb bs st (ret (none, post s q st))) (ap (λ q. q ++ skb ∷ []) is)
      (queued b s p first sock (rw is (omega arith)))
enqueue-Received fuel port skb b s st p bs cs (d ∷ e ∷ ds) first sock chain enough is =
    rw (wander-Chain fuel st.pcbs (some b) cs chain enough)
      (too_many b s p first sock (rw is (omega arith)))

-- SIP_UDPInput on a list of control blocks that ends, on enough fuel: it returns 0 with nothing
-- changed where no control block of the list has the port, 1 with nothing changed where the first
-- that has it has no struct sock; and else the datagram goes behind the one that waits at the struct
-- sock, if there is at most one, and if there are two, a null pointer is followed.
pub udp_input-Received :
    (fuel port skb : ℕ) (st : Udp) (head : Option ℕ) (bs : List ℕ)
    → get_elem? st.table (port % udp_htable_size) ≡ some head
    → Chain st.pcbs head bs
    → length bs < fuel
    → Received port skb bs st (udp_input fuel port skb st)
unfolding udp_input
udp_input-Received fuel port skb st head bs place chain enough =
    let (o, found, what) =
      follow-Found fuel (λ b p. p.port_local == port) st.pcbs head bs chain enough in
    rw place (rw found (received o what))
  where
    received :
        (o : Option ℕ)
        → Found (λ b p. p.port_local == port) st.pcbs bs o
        → Received port skb bs st (receive fuel skb st o)
    received none all = unbound all
    received (some b) (p, before, behind, parts, others, here, at, rest) =
        let first : FirstBound port bs st b p = record {
          before = before;
          behind = behind;
          parts = parts;
          others = others;
          here = here;
          at_port = (==_iff p.port_local port).0 at;
        } in
        let few : suc (length behind) < fuel =
          omega (arith, enough, ap length parts, length-append before (b ∷ behind)) in
        rw here (elim (Option-cases p.sock) [
          | inl sock ↦ rw sock (no_sock b p first sock)
          | inr (s, sock) ↦ rw sock (
              enqueue-Received fuel port skb b s st p bs (b ∷ behind) (st.waiting s) first sock rest
                few refl)
        ])
