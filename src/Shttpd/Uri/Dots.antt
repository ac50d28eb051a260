-- ===== src/Shttpd/Uri/Dots.antt =====
-- remove_double_dots and uri_parse of SHTTPD_18/shttpd_uri.c.
use linux_program_practice.Shttpd.Uri.{
  is_slash, is_dropped, remove_from, remove_double_dots, uri_parse, uri_decode, before_zero,
}
use linux_program_practice.Shttpd.Uri.Codec.{decode_from_returns}
use linux_program_practice.Base.{
  ℕ, ◌-◌, ◌≡◌, refl, ap, inl, inr, Bool, true, false, ◌&&◌, some, List, [], ◌∷◌, arith, Bool-cases,
  suc, ◌≤◌, length,
}

-- No slash is followed by a dot or a slash, and neither is the start if `after` says so.
abbrev pub IsClean : (after : Bool) → List ℕ → Type 0
IsClean after [] = Unit
IsClean after (c ∷ cs) = ((after && is_dropped c) ≡ false) × IsClean (is_slash c) cs

remove_from-IsClean : (skipping : Bool) (s : List ℕ) → IsClean skipping (remove_from skipping s)
unfolding remove_from
remove_from-IsClean skipping [] = tt
remove_from-IsClean skipping (c ∷ cs) = elim (Bool-cases (skipping && is_dropped c)) [
  | inl skip ↦
      let on : skipping ≡ true = ground arith in rw skip (rw on (remove_from-IsClean true cs))
  | inr copy ↦ rw copy (copy, remove_from-IsClean (is_slash c) cs)
]

remove_from_same : (after : Bool) (s : List ℕ) → IsClean after s → remove_from after s ≡ s
unfolding remove_from
remove_from_same after [] h = refl
remove_from_same after (c ∷ cs) h = rw h.0 (ap (◌∷◌ c) (remove_from_same (is_slash c) cs h.1))

-- In what remove_double_dots leaves of a string no slash or backslash is followed by a dot, a slash or
-- a backslash.
pub remove_double_dots-IsClean : (s : List ℕ) → IsClean false (remove_double_dots s)
unfolding remove_double_dots
remove_double_dots-IsClean s = remove_from-IsClean false s

-- A string in which no slash or backslash is followed by a dot, a slash or a backslash stays as it is;
-- a second removal after a first one therefore changes nothing.
pub remove_double_dots_same : (s : List ℕ) → IsClean false s → remove_double_dots s ≡ s
unfolding remove_double_dots
remove_double_dots_same s h = remove_from_same false s h

-- Where the buffer has at least one byte behind its length, so that the decoding does not read behind
-- it, uri_parse returns, and no slash or backslash of the string that it leaves is followed by a dot,
-- a slash or a backslash, not even by one that was encoded.
pub uri_parse-IsClean :
    (src : List ℕ) (len : ℕ)
    → suc len ≤ length src
    → (out : List ℕ) × (uri_parse src len ≡ some out) × IsClean false out
unfolding uri_parse uri_decode
uri_parse-IsClean src len h =
    let (d, decoded) = decode_from_returns (len - 1) (len - 1) src (omega arith) in
    (remove_double_dots (before_zero d), rw decoded, remove_double_dots-IsClean (before_zero d))
