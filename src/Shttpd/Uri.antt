-- ===== src/Shttpd/Uri.antt =====
-- SHTTPD_18/shttpd_uri.c: decoding of a URI, and removal of what follows a slash in it. Both write in
-- place and behind the place they read from, so what they read is what the caller gave. Characters are
-- bytes; isdigit, isxdigit and tolower are those of the C locale.
pub mod Dots
pub mod Codec
use mathlib.Core.Option
use linux_program_practice.Base.{
  ℕ, zero, suc, ◌+◌, ◌-◌, ◌*◌, Bool, true, false, ◌&&◌, ◌||◌, Option, none, some, List, [], ◌∷◌,
  leb, ◌==◌, if◌then◌else◌, ◌>>=◌, ◌/◌, ◌%◌, ◌^◌, ◌≤◌, ◌<◌, min, ◌≡◌, refl, sym, ap, subst, ◌∙◌,
  ◌≢◌, ◌↔◌, ◌⊎◌, inl, inr, not, ◌++◌, map, append-nil, append_assoc, arith, ltb, ltb→lt, lt→ltb,
  leb→le, ==_iff, &&_iff, Bool-cases, Option-cases, >>=-eq-some, length, get_elem?, set, take, drop,
  All, length-append, length-set, get_elem?-set_self, get_elem?-set_ne, All-set, All-get,
  take-append-drop, length-take, length-drop, codes, get_elem?-append, set-append,
}

abbrev pub is_slash : ℕ → Bool
is_slash c = c == b'/' || c == b'\\'

abbrev pub is_dropped : ℕ → Bool
is_dropped c = c == b'.' || c == b'/' || c == b'\\'

-- The loops of remove_double_dots on a string; `skipping` is whether the inner one runs.
pub remove_from : (skipping : Bool) → List ℕ → List ℕ
remove_from skipping [] = []
remove_from skipping (c ∷ cs) =
    let skipped = remove_from true cs in
    let copied = c ∷ remove_from (is_slash c) cs in
    if skipping && is_dropped c then skipped else copied

-- remove_double_dots
unfoldable pub remove_double_dots : List ℕ → List ℕ
unfolding remove_from
remove_double_dots s = remove_from false s

abbrev pub is_digit : ℕ → Bool
is_digit c = leb b'0' c && leb c b'9'

abbrev pub is_xdigit : ℕ → Bool
is_xdigit c = is_digit c || (leb b'a' c && leb c b'f') || (leb b'A' c && leb c b'F')

abbrev pub to_lower : ℕ → ℕ
to_lower c = if leb b'A' c && leb c b'Z' then c + 32 else c

-- HEXTOI
abbrev pub hextoi : ℕ → ℕ
hextoi x = if is_digit x then x - b'0' else x - b'W'

abbrev pub hex_value : ℕ → ℕ → ℕ
hex_value a b = hextoi (to_lower a) * 16 + hextoi (to_lower b)

-- The loop of uri_decode: `left` is src_len - i, `room` is dst_len - 1 - j, and the bytes are those
-- from src + i on. To read behind the last of them is a fault.
pub decode_from : (left room : ℕ) → List ℕ → Option (List ℕ)
decode_from zero room bytes = some []
decode_from (suc left) zero bytes = some []
decode_from (suc left) (suc room) [] = none
decode_from (suc left) (suc room) (c ∷ []) =
    let next = Option.map (λ out. c ∷ out) (decode_from left room []) in
    if c == b'%' then none else next
decode_from (suc left) (suc room) (c ∷ a ∷ []) =
    let next = Option.map (λ out. c ∷ out) (decode_from left room (a ∷ [])) in
    if c == b'%' && is_xdigit a then none else next
decode_from (suc left) (suc room) (c ∷ a ∷ b ∷ rest) =
    let decoded = Option.map (λ out. hex_value a b ∷ out) (decode_from (left - 2) room rest) in
    let next = Option.map (λ out. c ∷ out) (decode_from left room (a ∷ b ∷ rest)) in
    if c == b'%' && is_xdigit a && is_xdigit b then decoded else next

-- uri_decode, on the bytes from src on; the result is what it leaves at dst before the zero.
unfoldable pub uri_decode : (src_len dst_len : ℕ) → List ℕ → Option (List ℕ)
unfolding decode_from
uri_decode src_len dst_len bytes = decode_from src_len (dst_len - 1) bytes

-- The string in a buffer: what stands before its first zero.
unfoldable pub before_zero : List ℕ → List ℕ
before_zero [] = []
before_zero (b ∷ bs) = let rest = before_zero bs in if b == 0 then [] else b ∷ rest

-- uri_parse
unfoldable pub uri_parse : List ℕ → ℕ → Option (List ℕ)
unfolding before_zero
uri_parse src len = do
  decoded ← uri_decode (len - 1) len src
  some (remove_double_dots (before_zero decoded))
