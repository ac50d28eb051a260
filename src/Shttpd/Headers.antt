-- ===== src/Shttpd/Headers.antt =====
-- LinuxCodeBak/Code/18/shttpd_request.c: Request_HeaderParse, with its table of headers. A pointer into the
-- buffer is its offset, with the bytes from there to the end of the buffer beside it. strtoul, sscanf
-- and mktime are parameters.
pub mod Names
pub mod Inside
use linux_program_practice.Base.Int.{eqb_ℤ, ltb_ℤ, pos, ℤ, negsuc, sub_ℕ, pos_part, neg_part}
use mathlib.Core.Option
use linux_program_practice.Base.{
  ℕ, zero, suc, ◌+◌, ◌-◌, Bool, true, false, ◌&&◌, Option, none, some, List, [], ◌∷◌, ltb, leb,
  ◌==◌, if◌then◌else◌, length, get_elem?, drop, codes,
}

-- HDR_DATE, HDR_INT, HDR_STRING
pub data HeaderKind : Type 0 where
  hdr_date hdr_int hdr_string : HeaderKind

-- struct http_header
pub record HttpHeader : Type 0 where
  pub len : ℕ
  pub kind : HeaderKind
  pub offset : ℕ
  pub name : List ℕ

-- union variant, as far as the parser sets it; a number is what strtoul gives, as a long
pub data Variant : Type 0 where
  v_vec : (ptr len : ℕ) → Variant
  v_big_int : ℤ → Variant
  v_time : ℤ → Variant

-- struct headers, by the index of the field
abbrev pub Headers : Type 0
Headers = ℕ → Variant

abbrev header : ℕ → HeaderKind → ℕ → List ℕ → HttpHeader
header len kind offset name = record { len = len; kind = kind; offset = offset; name = name }

abbrev pub http_headers : List HttpHeader
http_headers =
    header 16 hdr_int 0 (codes "Content-Length: ")
    ∷ header 14 hdr_string 1 (codes "Content-Type: ")
    ∷ header 12 hdr_string 6 (codes "User-Agent: ")
    ∷ header 19 hdr_date 3 (codes "If-Modified-Since: ")
    ∷ header 15 hdr_string 5 (codes "Authorization: ")
    ∷ header 9 hdr_string 7 (codes "Referer: ")
    ∷ header 8 hdr_string 8 (codes "Cookie: ")
    ∷ header 10 hdr_string 9 (codes "Location: ")
    ∷ header 8 hdr_int 11 (codes "Status: ")
    ∷ header 7 hdr_string 10 (codes "Range: ")
    ∷ header 12 hdr_string 2 (codes "Connection: ")
    ∷ header 19 hdr_string 12 (codes "Transfer-Encoding: ")
    ∷ []

-- Where the line ends, from here.
unfoldable pub to_newline : List ℕ → ℕ
to_newline [] = 0
to_newline (c ∷ cs) = let n = to_newline cs in if c == b'\n' then 0 else suc n

abbrev pub lower : ℕ → ℕ
lower c = if leb b'A' c && leb c b'Z' then c + 32 else c

-- strncasecmp with the whole of a name
unfoldable pub starts_with_name : List ℕ → List ℕ → Bool
starts_with_name [] s = true
starts_with_name (x ∷ xs) [] = false
starts_with_name (x ∷ xs) (c ∷ cs) = lower c == lower x && starts_with_name xs cs

-- The search for the header of a line.
unfoldable pub find_header : List HttpHeader → List ℕ → Option HttpHeader
find_header [] s = none
find_header (h ∷ hs) s =
    let rest = find_header hs s in
    if ltb h.len (length s) && starts_with_name h.name s then some h else rest

-- The length of a string: a carriage return at its end is left out.
abbrev pub vec_len : List ℕ → ℕ → ℕ
vec_len s n =
    if ltb 0 n && elim (get_elem? s (n - 1)) [ none ↦ false | some c ↦ c == b'\r' ]
    then n - 1
    else n

module _ (strtoul date_to_epoch : List ℕ → ℤ) where
  -- The value of a header, which starts at offset `at`, where the line has n bytes more.
  abbrev pub header_value : HeaderKind → (at n : ℕ) → List ℕ → Variant
  header_value hdr_string at n s = v_vec at (vec_len s n)
  header_value hdr_int at n s = v_big_int (strtoul s)
  header_value hdr_date at n s = v_time (date_to_epoch s)

  abbrev pub put_header : Option HttpHeader → (at n : ℕ) → List ℕ → Headers → Headers
  put_header none at n s parsed = parsed
  put_header (some h) at n s parsed = λ f.
      if f == h.offset
      then header_value h.kind (at + h.len) (n - h.len) (drop h.len s)
      else parsed f

  -- The outer loop, from offset `at` on.
  unfoldable pub parse_from : ℕ → ℕ → List ℕ → Headers → Option Headers
  parse_from zero at s parsed = none
  parse_from (suc fuel) at [] parsed = some parsed
  parse_from (suc fuel) at (c ∷ cs) parsed =
      let s = c ∷ cs in
      let n = to_newline s in
      parse_from fuel (at + suc n) (drop (suc n) s)
        (put_header (find_header http_headers s) at n s parsed)

-- What sscanf reads of a date: six values, the month as a word.
pub record Scan : Type 0 where
  pub mday : ℤ
  pub month : List ℕ
  pub year : ℤ
  pub hour : ℤ
  pub minute : ℤ
  pub second : ℤ

-- struct tm, as far as it is set
pub record Tm : Type 0 where
  pub tm_mday : ℤ
  pub tm_mon : ℤ
  pub tm_year : ℤ
  pub tm_hour : ℤ
  pub tm_min : ℤ
  pub tm_sec : ℤ

-- strcmp with 0 for a result
abbrev pub same_text : List ℕ → List ℕ → Bool
same_text [] [] = true
same_text [] (y ∷ ys) = false
same_text (x ∷ xs) [] = false
same_text (x ∷ xs) (y ∷ ys) = x == y && same_text xs ys

abbrev pub month_from : ℕ → List (List ℕ) → List ℕ → ℤ
month_from i [] s = negsuc 0
month_from i (m ∷ ms) s =
    let rest = month_from (suc i) ms s in if same_text s m then pos i else rest

-- montoi
abbrev pub montoi : List ℕ → ℤ
montoi s =
    month_from 0
      (codes "Jan"
        ∷ codes "Feb"
        ∷ codes "Mar"
        ∷ codes "Apr"
        ∷ codes "May"
        ∷ codes "Jun"
        ∷ codes "Jul"
        ∷ codes "Aug"
        ∷ codes "Sep"
        ∷ codes "Oct"
        ∷ codes "Nov"
        ∷ codes "Dec"
        ∷ [])
      s

-- The first of the four formats that reads all six values, from the i-th on.
abbrev pub first_scan : (ℕ → List ℕ → Option Scan) → List ℕ → Option Scan
first_scan scan s = elim (scan 0 s) [
  | some d ↦ some d
  | none ↦ elim (scan 1 s) [
    | some d ↦ some d
    | none ↦ elim (scan 2 s) [ some d ↦ some d | none ↦ scan 3 s ]
  ]
]

abbrev zero_tm : Tm
zero_tm = record {
  tm_mday = pos 0;
  tm_mon = pos 0;
  tm_year = pos 0;
  tm_hour = pos 0;
  tm_min = pos 0;
  tm_sec = pos 0;
}

abbrev pub fill_tm : Option Scan → Tm
fill_tm none = zero_tm
fill_tm (some d) = if eqb_ℤ (montoi d.month) (negsuc 0) then zero_tm else record {
  tm_mday = d.mday;
  tm_mon = montoi d.month;
  tm_year = d.year;
  tm_hour = d.hour;
  tm_min = d.minute;
  tm_sec = d.second;
}

abbrev pub settle_year : Tm → Tm
settle_year t =
    if ltb_ℤ (pos 1900) t.tm_year
    then record t { tm_year = sub_ℕ (pos_part t.tm_year) (1900 + neg_part t.tm_year) }
    else if ltb_ℤ t.tm_year (pos 70)
    then record t { tm_year = sub_ℕ (pos_part t.tm_year + 100) (neg_part t.tm_year) }
    else t

-- date_to_epoch; `scan` is sscanf with one of the four formats, `none` unless it reads six values.
abbrev pub date_to_epoch : (ℕ → List ℕ → Option Scan) → (Tm → ℤ) → List ℕ → ℤ
date_to_epoch scan mktime s = mktime (settle_year (fill_tm (first_scan scan s)))

-- Request_HeaderParse
unfoldable pub request_header_parse :
    (strtoul : List ℕ → ℤ)
    → (ℕ → List ℕ → Option Scan)
    → (Tm → ℤ)
    → List ℕ
    → Headers
    → Option Headers
unfolding parse_from
request_header_parse strtoul scan mktime s parsed =
    parse_from strtoul (date_to_epoch scan mktime) (suc (length s)) 0 s parsed
