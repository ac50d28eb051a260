-- ===== src/Sip/Udp/Remove.antt =====
-- Taking a control block out of the list of its port.
use linux_program_practice.Sip.Udp.Chains.{Chain, Without}
use linux_program_practice.Sip.Udp.{udp_remove, Udp, UdpPcb, udp_htable_size, put_pcb, unlink_pcb}
use linux_program_practice.Base.Run.{ret, fault}
use linux_program_practice.Base.{
  ℕ, zero, suc, ◌+◌, ◌%◌, ◌<◌, ◌≡◌, refl, ◌≢◌, true, false, none, some, List, [], ◌∷◌, ◌++◌, arith,
  ◌==◌, length, get_elem?, set,
}

unlink_pcb_last :
    (fuel a b : ℕ) (st : Udp) (cs : List ℕ)
    → Chain st.pcbs (some b) (b ∷ (cs ++ a ∷ []))
    → Without a cs
    → b ≢ a
    → length cs + 1 < fuel
    → unlink_pcb fuel a b st ≡ fault
unfolding unlink_pcb
unlink_pcb_last zero a b st cs chain new ne enough = absurd (omega arith)
unlink_pcb_last (suc fuel) a b st [] (p, _, here, (q, is, there, last)) new ne enough =
    let itself : (a == a) ≡ true = ground arith in
    let self_b : (b == b) ≡ true = ground arith in
    rw here (rw is (rw itself (rw there (rw here (rw last refl)))))
unlink_pcb_last (suc fuel) a b st (c ∷ cs) (p, _, here, chain) (other, new) ne enough =
    let (q, is, there, rest) = chain in
    let differs : (c == a) ≡ false = ground (arith, other) in
    rw here (
      rw is (
        rw differs (unlink_pcb_last fuel a c st cs (q, refl, there, rest) new other (omega arith))))

-- Removing a control block that is the last of two or more in the list of its port follows a null
-- pointer.
pub udp_remove_last :
    (fuel a b : ℕ) (st : Udp) (k : UdpPcb) (cs : List ℕ)
    → st.pcbs a ≡ some k
    → get_elem? st.table (k.port_local % udp_htable_size) ≡ some (some b)
    → Chain st.pcbs (some b) (b ∷ (cs ++ a ∷ []))
    → Without a (b ∷ cs)
    → length cs + 1 < fuel
    → udp_remove fuel (some a) st ≡ fault
unfolding udp_remove
udp_remove_last fuel a b st k cs here place chain (ne, new) enough =
    let differs : (b == a) ≡ false = ground (arith, ne) in
    rw here (rw place (rw differs (rw (unlink_pcb_last fuel a b st cs chain new ne enough) refl)))

-- Removing the first control block of the list of its port: the list begins behind it, and it is
-- freed.
pub udp_remove_first :
    (fuel a : ℕ) (st : Udp) (k : UdpPcb)
    → st.pcbs a ≡ some k
    → get_elem? st.table (k.port_local % udp_htable_size) ≡ some (some a)
    → udp_remove fuel (some a) st
      ≡ ret (record st {
        table = set st.table (k.port_local % udp_htable_size) k.next;
        pcbs = put_pcb a none st.pcbs;
      })
unfolding udp_remove
udp_remove_first fuel a st k here place =
    let itself : (a == a) ≡ true = ground arith in rw here (rw place (rw itself refl))
