-- ===== src/Tests/RequestLine.antt =====
-- A GET of a path with dots.
use linux_program_practice.Shttpd.Request.Get.{Opened, get_line, request_parse_get}
use linux_program_practice.Shttpd.Request.{ConnRequest, Server, regular, request_parse, uri_max}
use linux_program_practice.Shttpd.Response.{method_get}
use linux_program_practice.Shttpd.Headers.{Headers, v_big_int}
use linux_program_practice.Base.Run.{ret}
use linux_program_practice.Base.Int.{pos}
use linux_program_practice.Base.{
  ℕ, ◌-◌, ◌≡◌, refl, some, none, List, [], ◌∷◌, ◌++◌, length, take, codes,
}

-- Every path is a file that holds "Hello", and sscanf reads 1.1 everywhere.
abbrev site : Server
site = record {
  document_root = codes "/www";
  files = λ path. some (regular (codes "Hello"));
  scan_version = λ text before. (1, 1);
  version = (0, 0);
  strtoul = λ text. pos 0;
  scan_date = λ n text. none;
  mktime = λ t. pos 0;
}

abbrev no_headers : Headers
no_headers f = v_big_int (pos 0)

abbrev request : List ℕ
request = get_line (codes "/../x") ++ b'\r' ∷ b'\n' ∷ b'\r' ∷ b'\n' ∷ []

request_parse_get_example :
    (r : ConnRequest) × (request_parse site (length request) request no_headers ≡ ret r)
    × Opened (some (regular (codes "Hello"))) r
    × (r.method ≡ some method_get)
    × (r.rpath ≡ take (uri_max - 1) (codes "/www" ++ b'/' ∷ codes "/../x"))
request_parse_get_example =
    request_parse_get site b'/' b'\r' (codes "../x") (b'\n' ∷ []) no_headers
      (
        (refl, refl, refl),
        ((refl, refl, refl), ((refl, refl, refl), ((refl, refl, refl), ((refl, refl, refl), tt)))),
      )
      refl refl
