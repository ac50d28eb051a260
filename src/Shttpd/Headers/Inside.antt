-- ===== src/Shttpd/Headers/Inside.antt =====
-- Where the strings of a parsed request are.
use linux_program_practice.Base.Int.{ℤ}
use linux_program_practice.Shttpd.Headers.Names.{
  OnOneLine, no_newline, http_headers_sound, before-OnOneLine, to_newline_le, starts_with_name_le,
  find_header-Sound, OnOneLine-slice, drop-drop, vec_len_le,
}
use linux_program_practice.Shttpd.Headers.{
  Tm, Scan, hdr_date, hdr_int, hdr_string, to_newline, HttpHeader, find_header, http_headers,
  Variant, header_value, vec_len, v_vec, v_big_int, v_time, HeaderKind, Headers, parse_from,
  request_header_parse, put_header, Scan, date_to_epoch,
}
use linux_program_practice.Base.{
  ℕ, ◌≤◌, ◌≡◌, inl, inr, List, [], ◌∷◌, arith, ◌==◌, ==_iff, &&_iff, Bool-cases, length, take, zero,
  suc, ◌+◌, ◌-◌, ◌<◌, refl, sym, ap, subst, ◌∙◌, ◌⊎◌, some, Option-cases, drop, length-drop, Option,
}

-- A value is inside of the buffer and on one line, if it is a string.
abbrev pub Inside : List ℕ → Variant → Type 0
Inside s (v_vec p l) = (p + l ≤ length s) × OnOneLine (take l (drop p s))
Inside s (v_big_int n) = Unit
Inside s (v_time t) = Unit

-- The value of a field comes from the buffer: at some place stands the name of a header of the
-- field, and the value is what follows it on its line.
pub record Given (strtoul date_to_epoch : List ℕ → ℤ) (s : List ℕ) (f : ℕ) (v : Variant)
    : Type 0 where
  pub at : ℕ
  pub h : HttpHeader
  pub found : find_header http_headers (drop at s) ≡ some h
  pub field : h.offset ≡ f
  pub value :
      v
      ≡ header_value strtoul date_to_epoch h.kind
          (at + h.len)
          (to_newline (drop at s) - h.len)
          (drop (at + h.len) s)
  pub inside : Inside s v

module _ (strtoul date_to_epoch : List ℕ → ℤ) (buf : List ℕ) where
  value-Inside :
      (k : HeaderKind) (p n : ℕ)
      → p + vec_len (drop p buf) n ≤ length buf
      → OnOneLine (take (vec_len (drop p buf) n) (drop p buf))
      → Inside buf (header_value strtoul date_to_epoch k p n (drop p buf))
  value-Inside hdr_string p n le on = (le, on)
  value-Inside hdr_int p n le on = tt
  value-Inside hdr_date p n le on = tt

  header_value-Inside :
      (at : ℕ) (h : HttpHeader)
      → find_header http_headers (drop at buf) ≡ some h
      → Inside buf (
          header_value strtoul date_to_epoch h.kind
            (at + h.len)
            (to_newline (drop at buf) - h.len)
            (drop (at + h.len) buf))
  header_value-Inside at h found =
      let (sound, lt, named) =
        find_header-Sound http_headers (drop at buf) h http_headers_sound found in
      let (clean, size) = (&&_iff (no_newline h.name) (length h.name == h.len)).0 sound in
      let name_le = starts_with_name_le h.name (drop at buf) clean named in
      let same = (==_iff (length h.name) h.len).0 size in
      let n = to_newline (drop at buf) in
      let rest = drop (at + h.len) buf in
      let short = vec_len_le rest (n - h.len) in
      let line_le = to_newline_le (drop at buf) in
      let left = length-drop at buf in
      let sum : h.len + vec_len rest (n - h.len) ≤ n = omega (arith, name_le, same, short) in
      value-Inside h.kind (at + h.len) (n - h.len) (omega (arith, sum, line_le, left, lt)) (
        subst (λ r. OnOneLine (take (vec_len rest (n - h.len)) r)) (drop-drop h.len at buf)
          (OnOneLine-slice h.len (vec_len rest (n - h.len)) n (drop at buf) sum
            (before-OnOneLine (drop at buf))))

  put_header-Given :
      (at f : ℕ) (parsed : Headers) (v : Variant)
      → v
        ≡ put_header strtoul date_to_epoch
            (find_header http_headers (drop at buf))
            at
            (to_newline (drop at buf))
            (drop at buf)
            parsed
            f
      → (v ≡ parsed f) ⊎ Given strtoul date_to_epoch buf f v
  put_header-Given at f parsed v is =
      let n = to_newline (drop at buf) in
      elim (Option-cases (find_header http_headers (drop at buf))) [
        | inl nothing ↦ inl (is ∙ rw nothing refl)
        | inr (h, found) ↦ elim (Bool-cases (f == h.offset)) [
          | inr fails ↦ inl (is ∙ rw found (rw fails refl))
          | inl holds ↦
              let value =
                is
                ∙ rw found (
                    rw holds (
                      ap (header_value strtoul date_to_epoch h.kind (at + h.len) (n - h.len))
                        (drop-drop h.len at buf))) in
              inr (record {
                at = at;
                h = h;
                found = found;
                field = sym ((==_iff f h.offset).0 holds);
                value = value;
                inside = subst (Inside buf) (sym value) (header_value-Inside at h found);
              })
        ]
      ]

  pub parse_from-Given :
      (fuel at : ℕ) (s : List ℕ) (parsed : Headers)
      → s ≡ drop at buf
      → length s < fuel
      → (r : Headers) × (parse_from strtoul date_to_epoch fuel at s parsed ≡ some r)
        × ((f : ℕ) → (r f ≡ parsed f) ⊎ Given strtoul date_to_epoch buf f (r f))
  unfolding parse_from
  parse_from-Given zero at s parsed here enough = absurd (omega (arith, enough))
  parse_from-Given (suc fuel) at [] parsed here enough = (parsed, refl, λ f. inl refl)
  parse_from-Given (suc fuel) at (c ∷ cs) parsed here enough =
      let s = c ∷ cs in
      let n = to_newline s in
      let left = length-drop (suc n) s in
      let put = put_header strtoul date_to_epoch (find_header http_headers s) at n s parsed in
      let (r, is, given) =
        parse_from-Given fuel (at + suc n) (drop (suc n) s) put
          (ap (drop (suc n)) here ∙ drop-drop (suc n) at buf) (omega (arith, left, enough)) in
      (
        r,
        is,
        λ f. elim (given f) [
          | inr g ↦ inr g
          | inl same ↦ put_header-Given at f parsed (r f) (
              subst
                (λ s.
                  r f
                  ≡ put_header strtoul date_to_epoch (find_header http_headers s) at (to_newline s)
                      s parsed f)
                here same)
        ],
      )

-- Request_HeaderParse ends on every buffer. After it, a field is either as before, or its value is
-- what follows the name of a header of the field on its line; if that is a string, it ends within
-- the buffer and has no end of line in it.
pub request_header_parse-Given :
    (strtoul : List ℕ → ℤ) (scan : ℕ → List ℕ → Option Scan) (mktime : Tm → ℤ) (s : List ℕ)
    (parsed : Headers)
    → (r : Headers) × (request_header_parse strtoul scan mktime s parsed ≡ some r)
      × ((f : ℕ) → (r f ≡ parsed f) ⊎ Given strtoul (date_to_epoch scan mktime) s f (r f))
unfolding request_header_parse
request_header_parse-Given strtoul scan mktime s parsed =
    parse_from-Given strtoul (date_to_epoch scan mktime) s (suc (length s)) 0 s parsed refl
      (omega arith)
