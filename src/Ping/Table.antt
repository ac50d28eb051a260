-- ===== src/Ping/Table.antt =====
-- The table of the packets: the first with a property, and what a write leaves.
use mathlib.Core.Option
use linux_program_practice.Base.{
  ℕ, zero, suc, ◌+◌, ◌<◌, ◌≡◌, ◌⊎◌, inl, inr, refl, sym, ap, ◌∙◌, Bool, true, false, some, List, [],
  ◌∷◌, ◌++◌, arith, length, get_elem?, set, Bool-cases, Option-cases, subst,
}
use linux_program_practice.Ping.{Packet, first_index}

-- What stands at index `i`, with all before it without the property.
abbrev pub IsFirst : (Packet → Bool) → List Packet → ℕ → Type 0
IsFirst p xs i =
    (e : Packet) × (get_elem? xs i ≡ some e)
    × (p e ≡ true)
    × ((j : ℕ) (f : Packet) → j < i → get_elem? xs j ≡ some f → p f ≡ false)

behind_other :
    {p : Packet → Bool} (x : Packet) (xs : List Packet) (k : ℕ)
    → p x ≡ false
    → IsFirst p xs k
    → IsFirst p (x ∷ xs) (suc k)
behind_other {p} x xs k fails (e, at, holds, before) = (e, at, holds, earlier)
  where
    earlier : (j : ℕ) (f : Packet) → j < suc k → get_elem? (x ∷ xs) j ≡ some f → p f ≡ false
    earlier zero f lt at' = rw (sym (Option.some_inj.0 at')) fails
    earlier (suc j) f lt at' = before j f (omega arith) at'

pub first_index-IsFirst :
    (p : Packet → Bool) (xs : List Packet) (i : ℕ) → first_index p xs ≡ some i → IsFirst p xs i
unfolding first_index
first_index-IsFirst p [] i h = cc
first_index-IsFirst p (x ∷ xs) i h = elim (Bool-cases (p x)) [
  | inl holds ↦
      let at_head : 0 ≡ i = Option.some_inj.0 (rw holds at h) in
      subst (λ n. IsFirst p (x ∷ xs) n) at_head (x, refl, holds, λ j f lt at. absurd (omega arith))
  | inr fails ↦ elim (Option-cases (first_index p xs)) [
    | inl missing ↦ cc (rw missing at (rw fails at h))
    | inr (k, found) ↦
        let later : suc k ≡ i = Option.some_inj.0 (rw found at (rw fails at h)) in
        subst (λ n. IsFirst p (x ∷ xs) n) later
          (behind_other x xs k fails (first_index-IsFirst p xs k found))
  ]
]

pub IsFirst-first_index :
    (p : Packet → Bool) (xs : List Packet) (i : ℕ) → IsFirst p xs i → first_index p xs ≡ some i
unfolding first_index
IsFirst-first_index p [] i (e, at, holds, before) = cc
IsFirst-first_index p (x ∷ xs) zero (e, at, holds, before) = ground (arith, at, holds)
IsFirst-first_index p (x ∷ xs) (suc i) (e, at, holds, before) =
    let no' = before 0 x (omega arith) refl in
    let rest =
      IsFirst-first_index p xs i (e, at, holds, λ j f lt at'. before (suc j) f (omega arith) at') in
    rw no' (rw rest refl)

pub get_elem?-set :
    (xs : List Packet) (k j : ℕ) (v f : Packet)
    → get_elem? (set xs k v) j ≡ some f
    → ((j ≡ k) × (f ≡ v)) ⊎ (get_elem? xs j ≡ some f)
get_elem?-set [] k j v f h = inr h
get_elem?-set (x ∷ xs) zero zero v f h = inl (refl, sym (Option.some_inj.0 h))
get_elem?-set (x ∷ xs) zero (suc j) v f h = inr h
get_elem?-set (x ∷ xs) (suc k) zero v f h = inr h
get_elem?-set (x ∷ xs) (suc k) (suc j) v f h = elim (get_elem?-set xs k j v f h) [
  | inl (at, is) ↦ inl (ap suc at, is)
  | inr old ↦ inr old
]

-- Behind a prefix.
pub get_elem?-behind :
    {A : Type 0} (xs ys : List A) (n k : ℕ)
    → n ≡ length xs + k
    → get_elem? (xs ++ ys) n ≡ get_elem? ys k
get_elem?-behind [] ys n k e = ap (get_elem? ys) (e ∙ omega arith)
get_elem?-behind (x ∷ xs) ys zero k e = absurd (omega arith)
get_elem?-behind (x ∷ xs) ys (suc n) k e = get_elem?-behind xs ys n k (omega arith)
