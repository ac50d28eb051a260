-- ===== src/Shttpd/Request/Get.antt =====
-- A GET of a URI, as a client sends it.
use linux_program_practice.Shttpd.Response.{method_get}
use linux_program_practice.Sipfw.ConfFile.{starts_with}
use linux_program_practice.Shttpd.Headers.Inside.{parse_from-Given}
use linux_program_practice.Base.Run.{Run, and_then, ret}
use linux_program_practice.Shttpd.Uri.{before_zero}
use linux_program_practice.Shttpd.Parameters.{scan_while}
use linux_program_practice.Shttpd.Parameters.Compact.{scan_while-append}
use linux_program_practice.Shttpd.Headers.Names.{drop-drop}
use linux_program_practice.Shttpd.Headers.{date_to_epoch, Headers, parse_from}
use linux_program_practice.Shttpd.Request.Pieces.{
  OneLine, take-length, before_zero-append, cut_line-append,
}
use linux_program_practice.Shttpd.Request.{
  parse_line, unread, Entry, Server, is_blank, on_read, regular, parse_version, ConnRequest,
  directory, open_file, parse_uri, uri_max, request_parse, find_method,
}
use linux_program_practice.Base.{
  ℕ, suc, ◌+◌, ◌-◌, ◌≡◌, refl, sym, ap, ◌∙◌, true, false, not, Option, none, some, List, [], ◌∷◌,
  ◌++◌, append_assoc, arith, ◌==◌, length, drop, All, length-append, codes, All-append, drop-append,
  take, set-append,
}

-- A byte of a URI: no blank, no end of a line, no zero.
abbrev pub UriByte : ℕ → Type 0
UriByte c = ((c == b' ') ≡ false) × ((c == b'\n') ≡ false) × ((c == 0) ≡ false)

-- The line of a request, without its end.
abbrev pub get_line : List ℕ → List ℕ
get_line uri = codes "GET " ++ (uri ++ codes " HTTP/1.1")

-- What becomes of it, by what is found under the path.
abbrev pub Opened : Option Entry → ConnRequest → Type 0
Opened none r = (r.status ≡ 404) × (r.file ≡ none)
Opened (some directory) r = (r.status ≡ 403) × (r.file ≡ some directory)
Opened (some (regular bytes)) r = (r.status ≡ 200) × (r.file ≡ some (regular bytes))

OneLine-append : (xs ys : List ℕ) → OneLine xs → OneLine ys → OneLine (xs ++ ys)
OneLine-append xs ys = All-append (λ c. (c == b'\n') ≡ false) xs ys

uri-OneLine : (uri : List ℕ) → All UriByte uri → OneLine uri
uri-OneLine [] h = tt
uri-OneLine (c ∷ cs) (one, h) = (one.1, uri-OneLine cs h)

uri_no_zero : (uri : List ℕ) → All UriByte uri → All (λ c. (c == 0) ≡ false) uri
uri_no_zero [] h = tt
uri_no_zero (c ∷ cs) (one, h) = (one.2, uri_no_zero cs h)

uri_no_blank : (uri : List ℕ) → All UriByte uri → All (λ c. not (is_blank c) ≡ true) uri
uri_no_blank [] h = tt
uri_no_blank (c ∷ cs) (one, h) = (rw (one.0) refl, uri_no_blank cs h)

module _ (env : Server) (u b : ℕ) (us rest : List ℕ) (ch : Headers) (uri_ok : All UriByte (u ∷ us))
    (more : (b == 0) ≡ false)
    (is_1_1 : env.scan_version (codes "HTTP/1.1") env.version ≡ (1, 1)) where
  abbrev uri : List ℕ
  uri = u ∷ us

  -- Behind the URI, after the end of the line was overwritten.
  abbrev behind : List ℕ
  behind = codes "HTTP/1.1" ++ 0 ∷ 0 ∷ b ∷ rest

  abbrev cut : List ℕ
  cut = (codes "GET " ++ uri) ++ 0 ∷ behind

  abbrev stop : ℕ
  stop = 4 + length uri

  drop-cut : (n m : ℕ) → m ≡ stop + 1 + n → drop m cut ≡ drop n behind
  drop-cut n m e =
      ap (λ k. drop k cut) (e ∙ omega arith)
      ∙ sym (drop-drop n (stop + 1) cut)
      ∙ ap (drop n) (
          ap (drop (stop + 1)) (sym (append_assoc (codes "GET " ++ uri) (0 ∷ []) behind))
          ∙ drop-append (stop + 1) ((codes "GET " ++ uri) ++ 0 ∷ []) behind
              (omega (arith, length-append us (0 ∷ []))))

  -- The last step of Request_Parse, on the header lines s.
  abbrev finish : ConnRequest → List ℕ → Run ConnRequest
  finish r s =
      and_then
        (on_read (
          parse_from env.strtoul (date_to_epoch env.scan_date env.mktime) (suc (length s))
            (stop + 1 + 8 + 2) s r.ch))
        λ ch. ret (record r { ch = ch })

  finish_lem : (r : ConnRequest) → (q : Headers) × (finish r (b ∷ rest) ≡ ret (record r { ch = q }))
  finish_lem r =
      let ten = drop-cut 10 (stop + 1 + 8 + 2) (omega arith) in
      let (q, is, _) =
        parse_from-Given env.strtoul (date_to_epoch env.scan_date env.mktime) cut
          (suc (length (b ∷ rest))) (stop + 1 + 8 + 2) (b ∷ rest) r.ch (sym ten) (omega arith) in
      (q, rw is refl)

  parse_version_lem :
      (r : ConnRequest) (q : Headers)
      → finish r (b ∷ rest) ≡ ret (record r { ch = q })
      → parse_version env (stop + 11 + length (b ∷ rest)) (stop + 1) cut r
        ≡ ret (record r { ch = q })
  unfolding scan_while before_zero
  parse_version_lem r q is =
      let at = drop-cut 0 (stop + 1) (omega arith) in
      let v : stop + 1 + 0 ≡ stop + 1 = omega arith in
      let eight = drop-cut 8 (stop + 1 + 8) (omega arith) in
      let ten = drop-cut 10 (stop + 1 + 8 + 2) (omega arith) in
      let left : stop + 11 + length (b ∷ rest) - (stop + 1 + 8 + 2) ≡ length (b ∷ rest) =
        omega arith in
      let all = take-length (b ∷ rest) in
      rw at
        (rw v (rw at (rw is_1_1 (rw eight (rw more (rw ten (rw left (ap (finish r) all ∙ is))))))))

  -- Where the path leads, and that the path and the method stay.
  open_file-Opened :
      (r : ConnRequest) (found : Option Entry)
      → r.status ≡ 200
      → r.file ≡ none
      → (r' : ConnRequest) × (open_file env (stop + 11 + length (b ∷ rest)) stop cut r found
          ≡ ret r')
        × Opened found r'
        × (r'.method ≡ r.method)
        × (r'.rpath ≡ r.rpath)
  open_file-Opened r none fresh unread =
      (record r { status = 404 }, refl, (refl, unread), refl, refl)
  open_file-Opened r (some directory) fresh unread =
      (record r { status = 403; file = some directory }, refl, (refl, refl), refl, refl)
  open_file-Opened r (some (regular bytes)) fresh unread =
      let opened = record r { file = some (regular bytes) } in
      let (q, is) = finish_lem opened in
      (record opened { ch = q }, parse_version_lem opened q is, (fresh, refl), refl, refl)

  -- The line without its end, in three pieces.
  abbrev line : List ℕ
  line = codes "GET " ++ (uri ++ b' ' ∷ behind)

  abbrev rpath : List ℕ
  rpath = take (uri_max - 1) (env.document_root ++ b'/' ∷ uri)

  parse_uri_lem :
      (len : ℕ) (r : ConnRequest)
      → parse_uri env len 3 line r
        ≡ open_file env len stop cut (record r { rpath = rpath }) (env.files rpath)
  unfolding scan_while
  parse_uri_lem len r =
      let no_blank = uri_ok.0.0 in
      let scanned =
        scan_while-append (λ c. not (is_blank c)) uri b' ' behind (uri_no_blank uri uri_ok) refl in
      let cleared = set-append (codes "GET " ++ uri) b' ' behind stop 0 (omega arith) in
      let path = before_zero-append uri behind (uri_no_zero uri uri_ok) in
      rw no_blank (rw scanned (rw cleared (rw path refl)))

  parse_line_lem :
      (len : ℕ)
      → parse_line env len ch line
        ≡ parse_uri env len 3 line (record (unread ch) { method = some method_get })
  unfolding scan_while find_method starts_with
  parse_line_lem len = refl

-- A GET of HTTP/1.1 whose URI has one byte or more, none of them a blank, an end of line or a zero,
-- with a byte other than 0 behind the first line: request_parse returns. The path is the root, a
-- slash and the URI, cut to the length of a path, with no other change; and the status is 404 where
-- there is nothing at the path, 403 where a directory is, and 200 where a file is.
pub request_parse_get :
    (env : Server) (u b : ℕ) (us rest : List ℕ) (ch : Headers)
    → All UriByte (u ∷ us)
    → (b == 0) ≡ false
    → env.scan_version (codes "HTTP/1.1") env.version ≡ (1, 1)
    → let buf = get_line (u ∷ us) ++ b'\r' ∷ b'\n' ∷ b ∷ rest in
      let path = take (uri_max - 1) (env.document_root ++ b'/' ∷ u ∷ us) in
      (r : ConnRequest) × (request_parse env (length buf) buf ch ≡ ret r)
      × Opened (env.files path) r
      × (r.method ≡ some method_get)
      × (r.rpath ≡ path)
unfolding request_parse
request_parse_get env u b us rest ch uri_ok more is_1_1 =
    let uri = u ∷ us in
    let pre = get_line uri in
    let one =
      OneLine-append (codes "GET ") (uri ++ codes " HTTP/1.1") (refl, (refl, (refl, (refl, tt))))
        (OneLine-append uri (codes " HTTP/1.1") (uri-OneLine uri uri_ok)
          (refl, (refl, (refl, (refl, (refl, (refl, (refl, (refl, (refl, tt)))))))))) in
    let cut_is = cut_line-append pre (b ∷ rest) one in
    let pieces = append_assoc uri (codes " HTTP/1.1") (0 ∷ 0 ∷ b ∷ rest) in
    let size : length (pre ++ b'\r' ∷ b'\n' ∷ b ∷ rest) ≡ 4 + length uri + 11 + length (b ∷ rest) =
      omega (
        arith,
        length-append (uri ++ codes " HTTP/1.1") (b'\r' ∷ b'\n' ∷ b ∷ rest),
        length-append uri (codes " HTTP/1.1"),
      ) in
    let found = record (unread ch) {
      method = some method_get;
      rpath = take (uri_max - 1) (env.document_root ++ b'/' ∷ uri);
    } in
    let (r, is, what, same_method, same_path) =
      open_file-Opened env u b us rest ch uri_ok more is_1_1 found (env.files found.rpath) refl
        refl in
    let len = 4 + length uri + 11 + length (b ∷ rest) in
    let parsed =
      parse_line_lem env u b us rest ch uri_ok more is_1_1 len
      ∙ parse_uri_lem env u b us rest ch uri_ok more is_1_1 len
          (record (unread ch) { method = some method_get }) in
    let tail = uri ++ b' ' ∷ (codes "HTTP/1.1" ++ 0 ∷ 0 ∷ b ∷ rest) in
    let whole = length (pre ++ b'\r' ∷ b'\n' ∷ b ∷ rest) in
    (
      r,
      ap (λ run. and_then run (parse_line env whole ch)) cut_is
          ∙ ap (λ xs. parse_line env whole ch (codes "GET " ++ xs)) pieces
          ∙ ap (λ n. parse_line env n ch (codes "GET " ++ tail)) size
          ∙ parsed
          ∙ is,
      what,
      same_method,
      same_path,
    )
