-- ===== src/Sip/Arp/Table.antt =====
-- arp_find_entry and arp_add_entry of LinuxCodeBak/Code/19/sip_arp.c as a memory of addresses.
use linux_program_practice.Sip.Arp.{
  ArptArp, arp_empty, Search, behind, find_from, write_entry, find_empty, is_for, is_expired,
  is_empty, arp_find_entry, arp_live_time, arp_add_entry, new_entry, arp_established,
  update_arp_entry, renewed,
}
use linux_program_practice.Base.{
  ℕ, suc, ◌+◌, ◌≡◌, refl, ap, ◌∙◌, ◌⊎◌, inl, inr, true, false, none, some, List, [], ◌∷◌, ◌++◌,
  arith, Bool-cases, length, All, get_elem?-append, set-append, ◌≤◌, sym, subst, get_elem?,
}

abbrev pub NotFor : ℕ → ArptArp → Type 0
NotFor ip e = is_for ip e ≡ false

-- A search from index `i` on found nothing, or the first entry for `ip`.
abbrev pub Finds : ℕ → ℕ → Search → Type 0
Finds ip i r =
    ((r.found ≡ none) × All (NotFor ip) r.table)
    ⊎ ((xs : List ArptArp) × (e : ArptArp) × (ys : List ArptArp) × (r.found ≡ some (i + length xs))
        × (r.table ≡ xs ++ e ∷ ys)
        × All (NotFor ip) xs
        × (is_for ip e ≡ true))

behind-Finds :
    (ip i : ℕ) (e : ArptArp) (r : Search)
    → NotFor ip e
    → Finds ip (suc i) r
    → Finds ip i (behind e r)
behind-Finds ip i e r h (inl (a, b)) = inl (a, (h, b))
behind-Finds ip i e r h (inr (xs, q, ys, a, b, c, d)) =
    let moved : suc i + length xs ≡ i + suc (length xs) = omega arith in
    inr (e ∷ xs, q, ys, a ∙ ap some moved, ap (◌∷◌ e) b, (h, c), d)

find_from-Finds : (now ip i : ℕ) (t : List ArptArp) → Finds ip i (find_from now ip i t)
unfolding find_from
find_from-Finds now ip i [] = inl (refl, tt)
find_from-Finds now ip i (e ∷ es) = elim (Bool-cases (is_expired now e)) [
  | inl old ↦ rw old (
      behind-Finds ip i (record e { status = arp_empty }) _ (ground arith)
        (find_from-Finds now ip (suc i) es))
  | inr young ↦ elim (Bool-cases (is_for ip e)) [
    | inl this ↦
        let first : i ≡ i + 0 = omega arith in
        rw (young, this) (inr ([], e, es, ap some first, refl, tt, this))
    | inr other ↦
        rw (young, other) (behind-Finds ip i e _ other (find_from-Finds now ip (suc i) es))
  ]
]

-- The first entry for `ip` is found, if it has not expired.
find_from-append :
    (now ip i : ℕ) (xs : List ArptArp) (e : ArptArp) (ys : List ArptArp)
    → All (NotFor ip) xs
    → is_for ip e ≡ true
    → is_expired now e ≡ false
    → (zs : List ArptArp) × (length zs ≡ length xs)
      × (find_from now ip i (xs ++ e ∷ ys)
          ≡ record { found = some (i + length xs); table = zs ++ e ∷ ys })
unfolding find_from
find_from-append now ip i [] e ys a h k =
    let first : i ≡ i + 0 = omega arith in
    ([], refl, rw (k, h) (ap (λ n. record { found = some n; table = e ∷ ys }) first))
find_from-append now ip i (x ∷ xs) e ys a h k =
    let (zs, m, r) = find_from-append now ip (suc i) xs e ys a.1 h k in
    let moved : suc i + length xs ≡ i + suc (length xs) = omega arith in
    elim (Bool-cases (is_expired now x)) [
      | inl old ↦ (record x { status = arp_empty } ∷ zs, ap suc m, rw (old, r) (rw moved))
      | inr young ↦ (x ∷ zs, ap suc m, rw (young, a.0, r) (rw moved))
    ]

-- The search for an empty entry.
find_empty-splits :
    (i : ℕ) (t : List ArptArp)
    → ((find_empty i t ≡ none) × All (λ e. is_empty e.status ≡ false) t)
      ⊎ ((xs : List ArptArp) × (e : ArptArp) × (ys : List ArptArp) × (find_empty i t
            ≡ some (i + length xs))
          × (t ≡ xs ++ e ∷ ys))
unfolding find_empty
find_empty-splits i [] = inl (refl, tt)
find_empty-splits i (e ∷ es) = elim (Bool-cases (is_empty e.status)) [
  | inl this ↦ let first : i ≡ i + 0 = omega arith in rw this (inr ([], e, es, ap some first, refl))
  | inr other ↦ rw other (elim (find_empty-splits (suc i) es) [
    | inl (a, b) ↦ inl (a, (refl, b))
    | inr (xs, q, ys, a, b) ↦
        let moved : suc i + length xs ≡ i + suc (length xs) = omega arith in
        inr (e ∷ xs, q, ys, a ∙ ap some moved, ap (◌∷◌ e) b)
  ])
]

write_entry-append :
    (i : ℕ) (write : ArptArp → ArptArp) (xs : List ArptArp) (e : ArptArp) (ys : List ArptArp)
    → i ≡ length xs
    → write_entry (some i) write (xs ++ e ∷ ys) ≡ xs ++ write e ∷ ys
write_entry-append i write xs e ys h =
    rw (get_elem?-append xs e ys i h, write_entry) (set-append xs e ys i (write e) h)

All-before : (P : ArptArp → Type 0) (xs ys : List ArptArp) → All P (xs ++ ys) → All P xs
All-before P [] ys a = tt
All-before P (x ∷ xs) ys a = (a.0, All-before P xs ys a.1)

-- A search for `ip` gives an entry with the address `ethaddr`.
abbrev pub Learned : ℕ → ℕ → List ℕ → List ArptArp → Type 0
Learned now ip ethaddr table =
    (i : ℕ) × (e : ArptArp) × ((arp_find_entry now ip table).found ≡ some i)
    × (get_elem? (arp_find_entry now ip table).table i ≡ some e)
    × (e.ethaddr ≡ ethaddr)

-- The table has no entry for `ip` and no empty one.
abbrev pub Full : ℕ → List ArptArp → Type 0
Full ip table = All (NotFor ip) table × All (λ e. is_empty e.status ≡ false) table

Learned-append :
    (now later ip : ℕ) (ethaddr : List ℕ) (xs ys : List ArptArp)
    → now ≤ later + arp_live_time
    → All (NotFor ip) xs
    → Learned later ip ethaddr (xs ++ new_entry now ip ethaddr arp_established ∷ ys)
unfolding arp_find_entry
Learned-append now later ip ethaddr xs ys h a =
    let e = new_entry now ip ethaddr arp_established in
    let (zs, m, r) = find_from-append later ip 0 xs e ys a (ground arith) (ground arith) in
    (
      0 + length xs,
      e,
      rw r,
      rw r (get_elem?-append zs e ys (0 + length xs) (omega (arith, m))),
      refl,
    )

module _ (now later ip : ℕ) (ethaddr : List ℕ) (table : List ArptArp)
    (clock : now ≤ later + arp_live_time) where
  abbrev pub searched : Search
  searched = arp_find_entry now ip table

  abbrev pub added : List ArptArp
  added = arp_add_entry now ip ethaddr arp_established table

  at_empty :
      searched.found ≡ none
      → All (NotFor ip) searched.table
      → (Learned later ip ethaddr added) ⊎ (Full ip searched.table × (added ≡ searched.table))
  unfolding arp_add_entry update_arp_entry
  at_empty missing a = elim (find_empty-splits 0 searched.table) [
    | inl (none_empty, full) ↦ inr ((a, full), rw (missing, none_empty))
    | inr (xs, e, ys, at, splits) ↦
        let written =
          write_entry-append (0 + length xs) (λ q. new_entry now ip ethaddr arp_established) xs e ys
            (omega arith) in
        let result : added ≡ xs ++ new_entry now ip ethaddr arp_established ∷ ys =
          rw (missing, at)
            (ap (write_entry (some (0 + length xs)) (λ q. new_entry now ip ethaddr arp_established))
                splits
              ∙ written) in
        inl (
          subst (Learned later ip ethaddr) (sym result) (
            Learned-append now later ip ethaddr xs ys clock
              (All-before (NotFor ip) xs (e ∷ ys) (subst (All (NotFor ip)) splits a))))
  ]

  at_found :
      (xs : List ArptArp) (e : ArptArp) (ys : List ArptArp)
      → searched.found ≡ some (0 + length xs)
      → searched.table ≡ xs ++ e ∷ ys
      → All (NotFor ip) xs
      → Learned later ip ethaddr added
  unfolding arp_add_entry update_arp_entry
  at_found xs e ys at splits a =
      let renewal =
        write_entry-append (0 + length xs) (renewed now ethaddr) xs e ys (omega arith) in
      let written =
        write_entry-append (0 + length xs) (λ q. new_entry now ip ethaddr arp_established) xs
          (renewed now ethaddr e) ys (omega arith) in
      let result : added ≡ xs ++ new_entry now ip ethaddr arp_established ∷ ys = rw at (
        ap (write_entry (some (0 + length xs)) (λ q. new_entry now ip ethaddr arp_established))
          (ap (write_entry (some (0 + length xs)) (renewed now ethaddr)) splits ∙ renewal)
        ∙ written) in
      subst (Learned later ip ethaddr) (sym result)
        (Learned-append now later ip ethaddr xs ys clock a)

  -- Until the clock is more than the live time behind, an address added for `ip` is what a search for
  -- `ip` gives, unless the table had neither an entry for `ip` nor an empty one; then the table stays
  -- as the search for `ip` left it.
  pub arp_add_entry-Learned :
      (Learned later ip ethaddr added) ⊎ (Full ip searched.table × (added ≡ searched.table))
  unfolding arp_find_entry
  arp_add_entry-Learned = elim (find_from-Finds now ip 0 table) [
    | inl (missing, a) ↦ at_empty missing a
    | inr (xs, e, ys, at, splits, a, this) ↦ inl (at_found xs e ys at splits a)
  ]

find_from_young :
    (now ip i : ℕ) (xs : List ArptArp) (e : ArptArp) (ys : List ArptArp)
    → All (λ q. q.ctime ≤ now) (xs ++ e ∷ ys)
    → All (NotFor ip) xs
    → is_for ip e ≡ true
    → find_from now ip i (xs ++ e ∷ ys)
      ≡ record { found = some (i + length xs); table = xs ++ e ∷ ys }
unfolding find_from
find_from_young now ip i [] e ys t a h =
    let young : is_expired now e ≡ false = ground arith in
    let first : i ≡ i + 0 = omega arith in
    rw (young, h) (ap (λ n. record { found = some n; table = e ∷ ys }) first)
find_from_young now ip i (x ∷ xs) e ys t a h =
    let young : is_expired now x ≡ false = ground arith in
    let moved : suc i + length xs ≡ i + suc (length xs) = omega arith in
    rw (young, a.0, find_from_young now ip (suc i) xs e ys t.1 a.1 h) (rw moved)

-- An entry whose time stamp is not later than the clock never expires, however old it is: in a table
-- of such entries a search for `ip` finds the first established entry for it, and changes nothing.
pub arp_find_entry_stale :
    (now ip : ℕ) (xs : List ArptArp) (e : ArptArp) (ys : List ArptArp)
    → All (λ q. q.ctime ≤ now) (xs ++ e ∷ ys)
    → All (NotFor ip) xs
    → is_for ip e ≡ true
    → arp_find_entry now ip (xs ++ e ∷ ys)
      ≡ record { found = some (length xs); table = xs ++ e ∷ ys }
unfolding arp_find_entry
arp_find_entry_stale now ip xs e ys t a h =
    let none_before : 0 + length xs ≡ length xs = omega arith in
    rw none_before at (find_from_young now ip 0 xs e ys t a h)

-- The first search of a table.
pub arp_find_entry-Finds : (now ip : ℕ) (t : List ArptArp) → Finds ip 0 (arp_find_entry now ip t)
unfolding arp_find_entry
arp_find_entry-Finds now ip t = find_from-Finds now ip 0 t
