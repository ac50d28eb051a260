-- ===== src/Sip/Frag/Lost.antt =====
-- What ip_frag makes of packets.
use linux_program_practice.Sip.Frag.{
  copy_from, copy_to, later_fragment, last_fragment, middle_fragment, more_fragments, fragments,
  first_fragment, frag_count, ip_frag, new_buffer, skb_data_align, offset_of, zeros,
}
use mathlib.Core.Option
use linux_program_practice.Base.{
  ℕ, zero, suc, ◌+◌, ◌-◌, ◌%◌, ◌^◌, ◌≤◌, ◌<◌, ◌≡◌, refl, sym, ◌⊎◌, inl, inr, Bool, true, false,
  Option, none, some, List, ◌++◌, arith, ltb, leb, leb→le, if◌then◌else◌, >>=-eq-some, length, take,
  drop, length-append, length-take, length-drop, Option-cases,
}

guarded {ℓ} :
    {A : Type ℓ} (c : Bool) (x : A) {y : A}
    → (if c then some x else none) ≡ some y
    → (c ≡ true) × (x ≡ y)
guarded true x h = (refl, Option.some_inj.0 h)
guarded false x h = cc

otherwise {ℓ} :
    {A : Type ℓ} (c : Bool) (o : Option A) {y : A} → (if c then none else o) ≡ some y → o ≡ some y
otherwise true o h = cc
otherwise false o h = h

length-zeros : (n : ℕ) → length (zeros n) ≡ n
length-zeros zero = refl
length-zeros (suc n) = omega (arith, length-zeros n)

-- What is copied out has the size that was asked for.
copy_from-length :
    (at n : ℕ) (buf : List ℕ) {bytes : List ℕ} → copy_from at n buf ≡ some bytes → length bytes ≡ n
unfolding copy_from
copy_from-length at n buf h =
    let (fits, is) = guarded (leb (at + n) (length buf)) (take n (drop at buf)) h in
    let fits' = leb→le (at + n) (length buf) fits in
    rw (sym is) (omega (arith, fits', length-take n (drop at buf), length-drop at buf))

copy_to-fits :
    (at : ℕ) (src dst : List ℕ) {b : List ℕ}
    → copy_to at src dst ≡ some b
    → (at + length src ≤ length dst) × (length b ≡ length dst)
unfolding copy_to
copy_to-fits at src dst h =
    let (fits, is) =
      guarded (leb (at + length src) (length dst))
        (take at dst ++ src ++ drop (at + length src) dst) h in
    let fits' = leb→le (at + length src) (length dst) fits in
    (
      fits',
      rw (sym is) (
          omega (
            arith,
            fits',
            length-append (take at dst ++ src) (drop (at + length src) dst),
            length-append (take at dst) src,
            length-take at dst,
            length-drop (at + length src) dst,
          )),
    )

-- A fragment with n bytes behind the headers has a buffer that they fit into.
later_fragment-fits :
    (mtu tail n frag_off tot_len : ℕ) (buf : List ℕ) {f : List ℕ}
    → later_fragment mtu tail n frag_off tot_len buf ≡ some f
    → 34 + n ≤ skb_data_align mtu
unfolding later_fragment
later_fragment-fits mtu tail n frag_off tot_len buf h =
    let (headers, _, h1) = >>=-eq-some (copy_from 0 34 buf) _ h in
    let (b, filled, h2) = >>=-eq-some (copy_to 0 headers (new_buffer mtu)) _ h1 in
    let (bytes, read, h3) = >>=-eq-some (copy_from tail n buf) _ h2 in
    let (c, put, h4) = >>=-eq-some (copy_to 34 bytes b) _ h3 in
    let (_, same) = copy_to-fits 0 headers (new_buffer mtu) filled in
    let n_bytes = copy_from-length tail n buf read in
    let (fits, _) = copy_to-fits 34 bytes b put in
    omega (arith, same, n_bytes, fits, length-zeros (skb_data_align mtu))

last_fragment-fits :
    (mtu i tail : ℕ) (buf : List ℕ) {f : List ℕ}
    → last_fragment mtu i tail buf ≡ some f
    → 34 + (length buf - tail) ≤ skb_data_align mtu
unfolding last_fragment
last_fragment-fits mtu i tail buf h =
    let n = length buf - tail in
    let made =
      otherwise (ltb (length buf) tail)
        (later_fragment mtu tail n (offset_of mtu i) ((n + 20) % 2 ^ 16) buf) h in
    later_fragment-fits mtu tail n (offset_of mtu i) ((n + 20) % 2 ^ 16) buf made

more_fragments-fits :
    (mtu i tail : ℕ) (buf : List ℕ) (n : ℕ) {fs : List (List ℕ)}
    → more_fragments mtu i tail buf (suc n) ≡ some fs
    → 34 + (length buf - tail) ≤ skb_data_align mtu
unfolding more_fragments
more_fragments-fits mtu i tail buf zero h =
    let (f, is, _) = >>=-eq-some (last_fragment mtu i tail buf) _ h in
    last_fragment-fits mtu i tail buf is
more_fragments-fits mtu i tail buf (suc n) h =
    let (f, _, h1) = >>=-eq-some (middle_fragment mtu i tail buf) _ h in
    let (fs, is, _) = >>=-eq-some (more_fragments mtu (suc i) tail buf (suc n)) _ h1 in
    more_fragments-fits mtu (suc i) tail buf n is

fragments_few :
    (mtu : ℕ) (buf : List ℕ) (n : ℕ) {fs : List (List ℕ)}
    → skb_data_align mtu < 34 + (length buf - mtu)
    → fragments mtu buf n ≡ some fs
    → length fs ≤ 1
unfolding fragments more_fragments
fragments_few mtu buf zero big h = rw (sym (Option.some_inj.0 h)) (omega arith)
fragments_few mtu buf (suc zero) big h =
    let (f, _, h1) = >>=-eq-some (first_fragment mtu buf) _ h in
    rw (sym (Option.some_inj.0 h1)) (omega arith)
fragments_few mtu buf (suc (suc n)) big h =
    let (f, _, h1) = >>=-eq-some (first_fragment mtu buf) _ h in
    let (fs, is, _) = >>=-eq-some (more_fragments mtu 1 mtu buf (suc n)) _ h1 in
    absurd (omega (arith, big, more_fragments-fits mtu 1 mtu buf n is))

-- Where the buffer of a packet is longer than the MTU by more than a fragment carries, ip_frag writes
-- outside of a buffer, or divides by 0, or gives at most one fragment.
pub ip_frag-lost :
    (mtu tot_len : ℕ) (buf : List ℕ)
    → skb_data_align mtu < 34 + (length buf - mtu)
    → (ip_frag mtu tot_len buf ≡ none)
      ⊎ ((fs : List (List ℕ)) × (ip_frag mtu tot_len buf ≡ some fs) × (length fs ≤ 1))
unfolding ip_frag
ip_frag-lost mtu tot_len buf big = elim (Option-cases (ip_frag mtu tot_len buf)) [
  | inl lost ↦ inl lost
  | inr (fs, is) ↦
      let (n, _, made) = >>=-eq-some (frag_count mtu tot_len) _ is in
      inr (fs, is, fragments_few mtu buf n big made)
]
