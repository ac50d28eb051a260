-- ===== src/Tests/Response.antt =====
-- A page of five bytes.
use linux_program_practice.Shttpd.Response.Types.{request_handle_stuck}
use linux_program_practice.Sipfw.ConfFile.{starts_with}
use linux_program_practice.Shttpd.Response.Body.{send_body-Sent}
use linux_program_practice.Shttpd.Response.Ranges.{part_header, request_handle_range}
use linux_program_practice.Base.Run.{ret, starved}
use linux_program_practice.Base.Int.{ℤ, pos}
use linux_program_practice.Shttpd.Response.{
  Response, Surroundings, request_handle, send_body, method_get, method_head,
}
use linux_program_practice.Base.{
  ℕ, ◌≤◌, ◌<◌, ◌≡◌, refl, true, false, none, some, List, [], arith, length, take, codes, ◌+◌, ◌*◌,
}

abbrev writes_all : ℕ → ℕ → ℤ
writes_all round n = pos n

-- sscanf reads "bytes=2-3", and what is not set is 0.
abbrev calm : Surroundings
calm = record { time = 0; scan_range = λ text r1 r2. (2, 2, 3); r1 = 0; r2 = 0 }

abbrev page : List ℕ
page = codes "Hello"

abbrev opened : Response
opened = record { res = none; status = 0; cl = pos 0; fd = some page; mtime = 0 }

png_is_other : starts_with (codes "html") (codes "png") ≡ false
unfolding starts_with
png_is_other = refl

html_is_html : starts_with (codes "html") (codes "html") ≡ true
unfolding starts_with
html_is_html = refl

request_handle_stuck_example :
    (request_handle writes_all 100 calm method_get (codes "a.png") none 5 opened ≡ starved)
    × (request_handle writes_all 100 calm method_head (codes "a.png") none 5 opened ≡ starved)
request_handle_stuck_example =
    request_handle_stuck writes_all calm (codes "a.png") (codes "png") none 5 opened refl
      png_is_other 100

send_body-Sent_example :
    ((fuel : ℕ)
      → 3 ≤ length page
      → 3 + 16384 ≤ 16384 * fuel
      → send_body writes_all fuel 0 (pos 3) page [] ≡ ret (take 3 page))
    × ((fuel : ℕ)
        → 3 ≤ length page
        → 16384 * fuel < 3 + 16384
        → send_body writes_all fuel 0 (pos 3) page [] ≡ starved)
    × ((fuel : ℕ) → length page < 3 → send_body writes_all fuel 0 (pos 3) page [] ≡ starved)
send_body-Sent_example = send_body-Sent writes_all (λ round n. refl) 3 page

-- Bytes 2 and 3 are asked for, and bytes 0 and 1 sent.
request_handle_range_example :
    request_handle writes_all 9 calm method_get (codes "a.html") (some (codes "bytes=2-3")) 5 opened
    ≡ ret (some (part_header calm 0 5 2 2), take 2 page)
request_handle_range_example =
    request_handle_range writes_all (λ round n. refl) 9 calm (codes "a.html") (codes "html") page
      opened refl html_is_html refl (omega arith) (codes "bytes=2-3") 2 3 refl (omega arith)
      (omega arith) (omega arith)
