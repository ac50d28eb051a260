-- ===== src/Shttpd/Uri/Codec.antt =====
-- uri_decode of SHTTPD_18/shttpd_uri.c, and an encoding to decode.
use linux_program_practice.Shttpd.Uri.{decode_from, hex_value, is_xdigit}
use linux_program_practice.Base.{
  ℕ, zero, suc, ◌+◌, ◌-◌, ◌/◌, ◌%◌, ◌≤◌, ◌≡◌, refl, inl, inr, ◌&&◌, some, List, [], ◌∷◌, arith, ltb,
  ◌==◌, if◌then◌else◌, Bool-cases, length,
}

-- The loop reads at most two bytes behind the last that it decodes.
pub decode_from_returns :
    (left room : ℕ) (bytes : List ℕ)
    → left ≤ length bytes - 2
    → (out : List ℕ) × (decode_from left room bytes ≡ some out)
unfolding decode_from
decode_from_returns zero room bytes h = ([], refl)
decode_from_returns (suc left) zero bytes h = ([], refl)
decode_from_returns (suc left) (suc room) [] h = absurd (omega arith)
decode_from_returns (suc left) (suc room) (c ∷ []) h = absurd (omega arith)
decode_from_returns (suc left) (suc room) (c ∷ a ∷ []) h = absurd (omega arith)
decode_from_returns (suc left) (suc room) (c ∷ a ∷ b ∷ rest) h =
    elim (Bool-cases (c == b'%' && is_xdigit a && is_xdigit b)) [
      | inl encoded ↦
          let (out, e) = decode_from_returns (left - 2) room rest (omega arith) in
          (hex_value a b ∷ out, rw (encoded, e))
      | inr plain ↦
          let (out, e) = decode_from_returns left room (a ∷ b ∷ rest) (omega arith) in
          (c ∷ out, rw (plain, e))
    ]

-- A byte as a percent sign and two digits.
abbrev pub hex_digit : ℕ → ℕ
hex_digit n = if ltb n 10 then n + b'0' else n + b'W'

abbrev pub encode : List ℕ → List ℕ
encode [] = []
encode (b ∷ bs) = b'%' ∷ hex_digit (b / 16) ∷ hex_digit (b % 16) ∷ encode bs
