-- ===== src/Shttpd/Response/Body.antt =====
-- The loop that sends a file.
use linux_program_practice.Base.Run.{ret, starved}
use linux_program_practice.Base.Int.{ℤ, pos, ltb_ℤ}
use linux_program_practice.Shttpd.Response.{chunk, send_body, minus}
use linux_program_practice.Base.{
  ℕ, zero, suc, ◌+◌, ◌-◌, ◌≤◌, ◌<◌, ◌≡◌, refl, ap, inl, inr, true, List, [], ◌∷◌, ◌++◌, arith, ltb,
  if◌then◌else◌, Bool-cases, length, take, drop, length-take, sym, ◌∙◌, append-nil, append_assoc,
  length-drop, ◌*◌,
}

-- All bytes are written at once.
abbrev pub WritesAll : (ℕ → ℕ → ℤ) → Type 0
WritesAll written = (round n : ℕ) → written round n ≡ pos n

abbrev taken : ℕ → ℕ
taken c = chunk (pos c)

take-drop : (k c : ℕ) (xs : List ℕ) → k ≤ c → take k xs ++ take (c - k) (drop k xs) ≡ take c xs
take-drop zero c xs le = ap (λ n. take n xs) (omega arith)
take-drop (suc k) zero xs le = absurd (omega arith)
take-drop (suc k) (suc c) [] le = take-nil (suc c - suc k)
  where
    take-nil : (n : ℕ) → take {A = ℕ} n [] ≡ []
    take-nil zero = refl
    take-nil (suc n) = refl
take-drop (suc k) (suc c) (x ∷ xs) le =
    let less : suc c - suc k ≡ c - k = omega arith in
    rw less (ap (◌∷◌ x) (take-drop k c xs (omega arith)))

-- A round sends all that is left, or 16384 bytes.
taken_fuel :
    (fuel c : ℕ) → 0 < c → c + 16384 ≤ 16384 * suc fuel → c - taken c + 16384 ≤ 16384 * fuel
taken_fuel fuel c positive enough = ground (arith, positive, enough)

taken_starved : (fuel c : ℕ) → 16384 * suc fuel < c + 16384 → 16384 * fuel < c - taken c + 16384
taken_starved fuel c few = ground (arith, few)

module _ (written : ℕ → ℕ → ℤ) (all : WritesAll written) where
  -- One round, where there is something to send.
  step :
      (fuel round c : ℕ) (rest sent : List ℕ)
      → 0 < c
      → send_body written (suc fuel) round (pos c) rest sent
        ≡ send_body written fuel
            (round + 1)
            (pos (c - length (take (taken c) rest)))
            (drop (taken c) rest)
            (sent ++ take (taken c) rest)
  unfolding send_body
  step fuel round c rest sent positive =
      let bytes = take (taken c) rest in
      let le : length bytes ≤ c = ground (arith, length-take (taken c) rest) in
      let n : (if ltb 0 (length bytes) then written round (length bytes) else pos 0)
          ≡ pos (length bytes) =
        elim (Bool-cases (ltb 0 (length bytes))) [
          | inl some_bytes ↦ rw some_bytes (all round (length bytes))
          | inr none_left ↦ rw none_left (ap pos (ground (arith, none_left)))
        ] in
      let less : minus (pos c) (pos (length bytes)) ≡ pos (c - length bytes) = ground (arith, le) in
      let more : ltb_ℤ (pos 0) (pos c) ≡ true = ground (arith, positive) in
      rw more (rw n (rw less refl))

  send_body-take :
      (fuel round c : ℕ) (rest sent : List ℕ)
      → c ≤ length rest
      → c + 16384 ≤ 16384 * fuel
      → send_body written fuel round (pos c) rest sent ≡ ret (sent ++ take c rest)
  unfolding send_body
  send_body-take zero round c rest sent le enough = absurd (omega arith)
  send_body-take (suc fuel) round zero rest sent le enough = ap ret (sym (append-nil sent))
  send_body-take (suc fuel) round (suc c) rest sent le enough =
      let k = taken (suc c) in
      let bytes = take k rest in
      let positive : 0 < k = ground arith in
      let small : k ≤ suc c = ground arith in
      let size : length bytes ≡ k = ground (arith, length-take k rest, small, le) in
      let left = length-drop k rest in
      let parts =
        append_assoc sent bytes (take (suc c - k) (drop k rest))
        ∙ ap (λ xs. sent ++ xs) (take-drop k (suc c) rest small) in
      step fuel round (suc c) rest sent (omega arith)
      ∙ rw size (
          send_body-take fuel (round + 1) (suc c - k) (drop k rest) (sent ++ bytes)
            (omega (arith, left, le)) (taken_fuel fuel (suc c) (omega arith) enough)
          ∙ ap ret parts)

  send_body_stuck :
      (fuel round c : ℕ) (rest sent : List ℕ)
      → length rest < c
      → send_body written fuel round (pos c) rest sent ≡ starved
  unfolding send_body
  send_body_stuck zero round c rest sent lt = refl
  send_body_stuck (suc fuel) round c rest sent lt =
      let k = taken c in
      let bytes = take k rest in
      let small : k ≤ c = ground arith in
      let size = length-take k rest in
      let left = length-drop k rest in
      step fuel round c rest sent (omega arith)
      ∙ send_body_stuck fuel (round + 1) (c - length bytes) (drop k rest) (sent ++ bytes)
          (ground (arith, size, left, small, lt))

  -- On less fuel the loop still runs, whether the file has enough bytes or not.
  send_body_starved :
      (fuel round c : ℕ) (rest sent : List ℕ)
      → c ≤ length rest
      → 16384 * fuel < c + 16384
      → send_body written fuel round (pos c) rest sent ≡ starved
  unfolding send_body
  send_body_starved zero round c rest sent le few = refl
  send_body_starved (suc fuel) round c rest sent le few =
      let k = taken c in
      let bytes = take k rest in
      let small : k ≤ c = ground arith in
      let size : length bytes ≡ k = ground (arith, length-take k rest, small, le) in
      let left = length-drop k rest in
      step fuel round c rest sent (omega (arith, few))
      ∙ rw size (
          send_body_starved fuel (round + 1) (c - k) (drop k rest) (sent ++ bytes)
            (omega (arith, left, le)) (taken_starved fuel c few))

  -- The loop of Request_Handle, where write always writes everything: if the file has as many bytes as
  -- are to be sent, these are sent, in as many rounds as there are pieces of 16384 bytes, the last
  -- piece begun counted, and on no less fuel; if it has fewer, the loop does not end.
  pub send_body-Sent :
      (c : ℕ) (file : List ℕ)
      → ((fuel : ℕ)
          → c ≤ length file
          → c + 16384 ≤ 16384 * fuel
          → send_body written fuel 0 (pos c) file [] ≡ ret (take c file))
        × ((fuel : ℕ)
            → c ≤ length file
            → 16384 * fuel < c + 16384
            → send_body written fuel 0 (pos c) file [] ≡ starved)
        × ((fuel : ℕ) → length file < c → send_body written fuel 0 (pos c) file [] ≡ starved)
  send_body-Sent c file = (
    λ fuel le enough. send_body-take fuel 0 c file [] le enough,
    λ fuel le few. send_body_starved fuel 0 c file [] le few,
    λ fuel lt. send_body_stuck fuel 0 c file [] lt,
  )
