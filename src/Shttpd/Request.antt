-- ===== src/Shttpd/Request.antt =====
-- LinuxCodeBak/Code/18/shttpd_request.c: Request_Parse. A pointer into the buffer is its index, and it
-- is a fault to run out of the buffer. The files, sscanf with the format "HTTP/%lu.%lu", and what the
-- header lines need are parameters.
pub mod Pieces
pub mod Get
use linux_program_practice.Shttpd.Parameters.{scan_while}
use linux_program_practice.Shttpd.Uri.{before_zero}
use linux_program_practice.Sipfw.ConfFile.{starts_with}
use linux_program_practice.Base.Int.{ℤ}
use linux_program_practice.Base.Run.{Run, and_then, ret, starved, fault, read}
use linux_program_practice.Shttpd.Response.{
  Method, method_get, method_post, method_put, method_delete, method_head,
}
use linux_program_practice.Shttpd.Headers.{Scan, Tm, date_to_epoch, Headers, to_newline, parse_from}
use mathlib.Core.Option
use linux_program_practice.Base.{
  ℕ, suc, ◌+◌, ◌-◌, ◌/◌, ◌^◌, Bool, not, ◌&&◌, ◌||◌, Option, none, some, List, [], ◌∷◌, ◌++◌, ltb,
  ◌==◌, if◌then◌else◌, length, get_elem?, set, take, drop, codes,
}

-- What open and fstat find under a path.
pub data Entry : Type 0 where
  directory : Entry
  regular : (bytes : List ℕ) → Entry

-- The surroundings of a request: the root of documents, the files, and sscanf, which gets the major
-- and the minor version from before and gives those from then on; `version` is what they are at first.
-- `scan_date` is sscanf with one of the formats of a date.
pub record Server : Type 0 where
  pub document_root : List ℕ
  pub files : List ℕ → Option Entry
  pub scan_version : List ℕ → ℕ × ℕ → ℕ × ℕ
  pub version : ℕ × ℕ
  pub strtoul : List ℕ → ℤ
  pub scan_date : ℕ → List ℕ → Option Scan
  pub mktime : Tm → ℤ

-- struct conn_request with the file that is open, and what Request_Parse returns
pub record ConnRequest : Type 0 where
  pub status : ℕ
  pub method : Option Method
  pub rpath : List ℕ
  pub file : Option Entry
  pub ch : Headers

abbrev pub shttpd_methods : List (List ℕ × Method)
shttpd_methods =
    (codes "GET", method_get)
    ∷ (codes "POST", method_post)
    ∷ (codes "PUT", method_put)
    ∷ (codes "DELETE", method_delete)
    ∷ (codes "HEAD", method_head)
    ∷ []

-- The search for the method: its length and what it is.
pub find_method : List (List ℕ × Method) → List ℕ → Option (ℕ × Method)
find_method [] s = none
find_method ((name, m) ∷ ms) s =
    let rest = find_method ms s in if starts_with name s then some (length name, m) else rest

abbrev pub uri_max : ℕ
uri_max = 2 ^ 14

abbrev pub is_blank : ℕ → Bool
is_blank c = c == b' '

-- JUMPOVER_CHAR and JUMPTO_CHAR from index `at` on: where they end.
abbrev pub jumpover : (ℕ → Bool) → (at : ℕ) → List ℕ → Run ℕ
jumpover p at buf = and_then (read (scan_while p (drop at buf))) λ n. ret (at + n)

abbrev pub jumpto : (ℕ → Bool) → (at : ℕ) → List ℕ → Run ℕ
jumpto p at buf = jumpover (λ c. not (p c)) at buf

-- The end of the first line is overwritten by zeros; the line has none, where memchr finds none.
abbrev pub cut_line : ℕ → List ℕ → Run (List ℕ)
cut_line len buf =
    let nl = to_newline (take len buf) in
    if nl == 0 || not (ltb nl (length (take len buf)))
    then fault
    else (and_then (read (get_elem? buf (nl - 1)))
        λ c. ret (set (if c == b'\r' then set buf (nl - 1) 0 else buf) nl 0))

abbrev pub is_version : ℕ × ℕ → Bool
is_version (major, minor) =
    (major == 0 && minor == 9) || (major == 1 && minor == 0) || (major == 1 && minor == 1)

abbrev pub on_read : {A : Type 0} → Option A → Run A
on_read none = starved
on_read (some a) = ret a

-- The part of Request_Parse behind the version, which begins at `at`.
abbrev pub parse_rest : Server → (len at : ℕ) → List ℕ → ConnRequest → Run ConnRequest
parse_rest env len at buf r = and_then (jumpto (λ c. c == 0) at buf) λ stop.
    and_then (jumpover (λ c. c == 0) stop buf) λ h.
      let s = take (len - h) (drop h buf) in
      and_then
        (on_read (
          parse_from env.strtoul (date_to_epoch env.scan_date env.mktime) (suc (length s)) h s
            r.ch))
        λ ch. ret (record r { ch = ch })

abbrev pub parse_version : Server → (len at : ℕ) → List ℕ → ConnRequest → Run ConnRequest
parse_version env len at buf r = and_then (jumpover is_blank at buf) λ v.
    if is_version (env.scan_version (before_zero (drop v buf)) env.version)
    then parse_rest env len v buf r
    else ret (record r { status = 505 })

-- The part of Request_Parse that opens the file, where the URI ends at `stop`.
abbrev pub open_file :
    Server → (len stop : ℕ) → List ℕ → ConnRequest → Option Entry → Run ConnRequest
open_file env len stop buf r none = ret (record r { status = 404 })
open_file env len stop buf r (some directory) =
    ret (record r { status = 403; file = some directory })
open_file env len stop buf r (some (regular bytes)) =
    parse_version env len (stop + 1) buf (record r { file = some (regular bytes) })

-- The part of Request_Parse behind the method, which ends at `at`.
abbrev pub parse_uri : Server → (len at : ℕ) → List ℕ → ConnRequest → Run ConnRequest
parse_uri env len at buf r = and_then (jumpover is_blank at buf) λ p.
    and_then (jumpto is_blank p buf) λ stop.
      let cut = set buf stop 0 in
      let rpath = take (uri_max - 1) (env.document_root ++ b'/' ∷ before_zero (drop p cut)) in
      open_file env len stop cut (record r { rpath = rpath }) (env.files rpath)

abbrev pub parse_method :
    Server → (len at : ℕ) → List ℕ → ConnRequest → Option (ℕ × Method) → Run ConnRequest
parse_method env len at buf r none = ret (record r { status = 400 })
parse_method env len at buf r (some (n, m)) =
    parse_uri env len (at + n) buf (record r { method = some m })

-- What a request is before it is read.
abbrev pub unread : Headers → ConnRequest
unread ch = record { status = 200; method = none; rpath = []; file = none; ch = ch }

-- The part of Request_Parse behind the first line.
abbrev pub parse_line : Server → (len : ℕ) → Headers → List ℕ → Run ConnRequest
parse_line env len ch line =
    and_then (jumpover is_blank 0 line)
      λ at. parse_method env len at line (unread ch) (find_method shttpd_methods (drop at line))

-- Request_Parse on a buffer with `len` bytes of a request
unfoldable pub request_parse : Server → (len : ℕ) → (buf : List ℕ) → Headers → Run ConnRequest
request_parse env len buf ch = and_then (cut_line len buf) (parse_line env len ch)
