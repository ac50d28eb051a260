-- ===== src/Sip/Udp/Chains.antt =====
-- Lists of control blocks that end.
use linux_program_practice.Sip.Udp.{UdpPcb, follow, seen_in, wander, put_pcb}
use linux_program_practice.Base.Run.{fault, ret}
use linux_program_practice.Base.{
  ℕ, zero, suc, ◌<◌, ◌≡◌, refl, ◌≢◌, inl, inr, Bool, true, false, ◌||◌, Option, none, some, List,
  [], ◌∷◌, arith, ◌==◌, Bool-cases, length, All, ap, ◌++◌,
}

-- The control blocks of the list from `head` on, in order; behind the last one is null.
abbrev pub Chain : (ℕ → Option UdpPcb) → Option ℕ → List ℕ → Type 0
Chain pcbs head [] = head ≡ none
Chain pcbs head (b ∷ bs) = (p : UdpPcb) × (head ≡ some b) × (pcbs b ≡ some p) × Chain pcbs p.next bs

abbrev pub Without : ℕ → List ℕ → Type 0
Without a bs = All (λ b. b ≢ a) bs

-- Assigning to a control block leaves the lists without it alone.
pub Chain-put_pcb :
    (pcbs : ℕ → Option UdpPcb) (a : ℕ) (v : Option UdpPcb) (head : Option ℕ) (bs : List ℕ)
    → Chain pcbs head bs
    → Without a bs
    → Chain (put_pcb a v pcbs) head bs
Chain-put_pcb pcbs a v head [] c w = c
Chain-put_pcb pcbs a v head (b ∷ bs) (p, is, here, c) (ne, w) =
    let other : (b == a) ≡ false = ground (arith, ne) in
    (p, is, rw other here, Chain-put_pcb pcbs a v p.next bs c w)

pub seen_in-Chain :
    (fuel a : ℕ) (seen : Bool) (pcbs : ℕ → Option UdpPcb) (head : Option ℕ) (bs : List ℕ)
    → Chain pcbs head bs
    → Without a bs
    → length bs < fuel
    → seen_in fuel a seen head pcbs ≡ ret seen
unfolding seen_in
seen_in-Chain zero a seen pcbs head bs c w enough = absurd (omega arith)
seen_in-Chain (suc fuel) a seen pcbs head [] c w enough = rw c refl
seen_in-Chain (suc fuel) a seen pcbs head (b ∷ bs) (p, is, here, c) (ne, w) enough =
    let other : (b == a) ≡ false = ground (arith, ne) in
    let same : (seen || false) ≡ seen = ground arith in
    rw is
      (rw here (rw other (rw same (seen_in-Chain fuel a seen pcbs p.next bs c w (omega arith)))))

pub wander-Chain :
    (fuel : ℕ) (pcbs : ℕ → Option UdpPcb) (head : Option ℕ) (bs : List ℕ)
    → Chain pcbs head bs
    → length bs < fuel
    → wander fuel head pcbs ≡ fault
unfolding wander
wander-Chain zero pcbs head bs c enough = absurd (omega arith)
wander-Chain (suc fuel) pcbs head [] c enough = rw c refl
wander-Chain (suc fuel) pcbs head (b ∷ bs) (p, is, here, c) enough =
    rw is (rw here (wander-Chain fuel pcbs p.next bs c (omega arith)))

-- What a search ends with: nothing, or the first control block with the test.
abbrev pub Found : (ℕ → UdpPcb → Bool) → (ℕ → Option UdpPcb) → List ℕ → Option ℕ → Type 0
Found stop pcbs bs none = All (λ b. (p : UdpPcb) × (pcbs b ≡ some p) × (stop b p ≡ false)) bs
Found stop pcbs bs (some b) =
    (p : UdpPcb) × (before : List ℕ) × (behind : List ℕ) × (bs ≡ before ++ b ∷ behind)
    × All (λ a. (q : UdpPcb) × (pcbs a ≡ some q) × (stop a q ≡ false)) before
    × (pcbs b ≡ some p)
    × (stop b p ≡ true)
    × Chain pcbs (some b) (b ∷ behind)

pub follow-Found :
    (fuel : ℕ) (stop : ℕ → UdpPcb → Bool) (pcbs : ℕ → Option UdpPcb) (head : Option ℕ) (bs : List ℕ)
    → Chain pcbs head bs
    → length bs < fuel
    → (o : Option ℕ) × (follow fuel stop head pcbs ≡ ret o) × Found stop pcbs bs o
unfolding follow
follow-Found zero stop pcbs head bs c enough = absurd (omega arith)
follow-Found (suc fuel) stop pcbs head [] c enough = (none, rw c refl, tt)
follow-Found (suc fuel) stop pcbs head (b ∷ bs) (p, is, here, c) enough =
    elim (Bool-cases (stop b p)) [
      | inl yes_here ↦ (
        some b,
        rw is (rw here (rw yes_here refl)),
        (p, [], bs, refl, tt, here, yes_here, (p, refl, here, c)),
      )
      | inr on ↦
          let (o, rest, found) = follow-Found fuel stop pcbs p.next bs c (omega arith) in
          (o, rw is (rw here (rw on rest)), behind o on found)
    ]
  where
    behind : (o : Option ℕ) → stop b p ≡ false → Found stop pcbs bs o → Found stop pcbs (b ∷ bs) o
    behind none on found = ((p, here, on), found)
    behind (some d) on (q, xs, ys, parts, others, there, is_it, chain) =
        (q, b ∷ xs, ys, ap (◌∷◌ b) parts, ((p, here, on), others), there, is_it, chain)
