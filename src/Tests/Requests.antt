-- ===== src/Tests/Requests.antt =====
-- Two header lines of a request.
use linux_program_practice.Base.Int.{pos, ℤ}
use mathlib.Core.Option
use linux_program_practice.Base.{ℕ, ◌≡◌, ◌⊎◌, refl, Option, some, none, List, codes}
use linux_program_practice.Shttpd.Headers.{
  parse_from, to_newline, find_header, starts_with_name, Headers, Scan, Tm, v_big_int, v_vec,
  date_to_epoch, request_header_parse,
}
use linux_program_practice.Shttpd.Headers.Inside.{Given, request_header_parse-Given}

abbrev request : List ℕ
request = codes "Host: x\r\nrange: 5-9\r\n"

abbrev no_headers : Headers
no_headers f = v_big_int (pos 0)

abbrev no_number : List ℕ → ℤ
no_number s = pos 0

abbrev no_date : ℕ → List ℕ → Option Scan
no_date i s = none

abbrev no_time : Tm → ℤ
no_time t = pos 0

-- The value of the second line starts at byte 16 and has 3 bytes.
request_parsed :
    Option.map
      (λ (r : Headers). r 10)
      (request_header_parse no_number no_date no_time request no_headers)
    ≡ some (v_vec 16 3)
unfolding request_header_parse parse_from to_newline find_header starts_with_name
request_parsed = refl

request_header_parse-Given_example :
    (r : Headers) × (request_header_parse no_number no_date no_time request no_headers ≡ some r)
    × ((f : ℕ)
        → (r f ≡ no_headers f) ⊎ Given no_number (date_to_epoch no_date no_time) request f (r f))
request_header_parse-Given_example =
    request_header_parse-Given no_number no_date no_time request no_headers
