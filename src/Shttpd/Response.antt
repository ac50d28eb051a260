-- ===== src/Shttpd/Response.antt =====
-- LinuxCodeBak/Code/18/shttpd_mine.c, shttpd_method.c, and Request_Handle of shttpd_request.c: the
-- answer to a request that was parsed. The header is the record of the values that snprintf gets, a
-- file is its bytes, and a read of a file gives as many bytes as it asks for, if there are as many.
-- sscanf, time and localtime are parameters, as is what write returns. `long` has 64 bits.
pub mod Types
pub mod Body
pub mod Ranges
use linux_program_practice.Sipfw.ConfFile.{starts_with}
use linux_program_practice.Base.Int.{signed32, ℤ, ltb_ℤ, sub_ℕ, pos, pos_part, neg_part}
use linux_program_practice.Base.Run.{Run, and_then, starved, read, ret}
use mathlib.Core.Option
use linux_program_practice.Base.{
  ℕ, zero, suc, ◌+◌, ◌-◌, ◌*◌, ◌/◌, ◌%◌, ◌^◌, ◌≤◌, ◌<◌, min, ◌≡◌, refl, sym, ap, subst, ◌∙◌, ◌≢◌,
  ◌↔◌, ◌⊎◌, inl, inr, Bool, true, false, not, ◌&&◌, ◌||◌, Option, none, some, List, [], ◌∷◌, ◌++◌,
  map, append-nil, append_assoc, arith, ltb, leb, ◌==◌, if◌then◌else◌, ltb→lt, lt→ltb, leb→le,
  ==_iff, &&_iff, Bool-cases, Option-cases, ◌>>=◌, >>=-eq-some, length, get_elem?, set, take, drop,
  All, length-append, length-set, get_elem?-set_self, get_elem?-set_ne, All-set, All-get,
  take-append-drop, length-take, length-drop, codes, get_elem?-append, set-append, All-append,
  take-append, drop-append, get_elem?-none, get_elem?-lt, get_elem?-outside,
}

-- struct mine_type
pub record MineType : Type 0 where
  pub extension : List ℕ
  pub ext_len : ℕ
  pub mime_type : List ℕ

abbrev mine : List ℕ → ℕ → List ℕ → MineType
mine extension ext_len mime_type = record {
  extension = extension;
  ext_len = ext_len;
  mime_type = mime_type;
}

abbrev pub html : MineType
html = mine (codes "html") 4 (codes "text/html")

pub builtin_mime_types : List MineType
builtin_mime_types =
    mine (codes "html") 4 (codes "text/html")
    ∷ mine (codes "htm") 3 (codes "text/html")
    ∷ mine (codes "txt") 3 (codes "text/plain")
    ∷ mine (codes "css") 3 (codes "text/css")
    ∷ mine (codes "ico") 3 (codes "image/x-icon")
    ∷ mine (codes "gif") 3 (codes "image/gif")
    ∷ mine (codes "jpg") 3 (codes "image/jpeg")
    ∷ mine (codes "jpeg") 4 (codes "image/jpeg")
    ∷ mine (codes "png") 3 (codes "image/png")
    ∷ mine (codes "svg") 3 (codes "image/svg+xml")
    ∷ mine (codes "torrent") 7 (codes "application/x-bittorrent")
    ∷ mine (codes "wav") 3 (codes "audio/x-wav")
    ∷ mine (codes "mp3") 3 (codes "audio/x-mp3")
    ∷ mine (codes "mid") 3 (codes "audio/mid")
    ∷ mine (codes "m3u") 3 (codes "audio/x-mpegurl")
    ∷ mine (codes "ram") 3 (codes "audio/x-pn-realaudio")
    ∷ mine (codes "ra") 2 (codes "audio/x-pn-realaudio")
    ∷ mine (codes "doc") 3 (codes "application/msword")
    ∷ mine (codes "exe") 3 (codes "application/octet-stream")
    ∷ mine (codes "zip") 3 (codes "application/x-zip-compressed")
    ∷ mine (codes "xls") 3 (codes "application/excel")
    ∷ mine (codes "tgz") 3 (codes "application/x-tar-gz")
    ∷ mine (codes "tar.gz") 6 (codes "application/x-tar-gz")
    ∷ mine (codes "tar") 3 (codes "application/x-tar")
    ∷ mine (codes "gz") 2 (codes "application/x-gunzip")
    ∷ mine (codes "arj") 3 (codes "application/x-arj-compressed")
    ∷ mine (codes "rar") 3 (codes "application/x-arj-compressed")
    ∷ mine (codes "rtf") 3 (codes "application/rtf")
    ∷ mine (codes "pdf") 3 (codes "application/pdf")
    ∷ mine (codes "swf") 3 (codes "application/x-shockwave-flash")
    ∷ mine (codes "mpg") 3 (codes "video/mpeg")
    ∷ mine (codes "mpeg") 4 (codes "video/mpeg")
    ∷ mine (codes "asf") 3 (codes "video/x-ms-asf")
    ∷ mine (codes "avi") 3 (codes "video/x-msvideo")
    ∷ mine (codes "bmp") 3 (codes "image/bmp")
    ∷ []

-- The bytes behind the first dot; memchr finds none, if there is none.
abbrev pub behind_dot : List ℕ → Option (List ℕ)
behind_dot [] = none
behind_dot (c ∷ cs) = let rest = behind_dot cs in if c == b'.' then some cs else rest

-- The loop of Mine_Type: `mine` is never moved on.
pub mine_loop : ℕ → MineType → List ℕ → Run MineType
mine_loop zero m ext = starved
mine_loop (suc fuel) m ext =
    let rest = mine_loop fuel m ext in if starts_with m.extension ext then ret m else rest

-- Mine_Type on the bytes of a URI. Where it has no dot, the string at address 1 is printed.
unfoldable pub mine_type : ℕ → List ℕ → Run MineType
unfolding mine_loop builtin_mime_types
mine_type fuel uri =
    and_then (read (behind_dot uri))
      λ ext. and_then (read (get_elem? builtin_mime_types 0)) λ m. mine_loop fuel m ext

-- enum SHTTPD_METHOD_TYPE
pub data Method : Type 0 where
  method_get method_post method_put method_delete method_head method_cgi method_notsupport : Method

-- The values of the header of an answer. `range` is the first and the last byte and the size.
pub record Header : Type 0 where
  pub status : ℕ
  pub date : ℕ
  pub last_modified : ℕ
  pub etag : ℕ × ℕ
  pub content_type : List ℕ
  pub content_length : ℕ
  pub range : Option (ℕ × ℕ × ℕ)

-- struct conn_response; `fd` is the file, if one is open, and `res` the header, if one was made.
pub record Response : Type 0 where
  pub res : Option Header
  pub status : ℕ
  pub cl : ℤ
  pub fd : Option (List ℕ)
  pub mtime : ℕ

-- What the handling of a request depends on besides the connection: the time, sscanf with the format
-- "bytes=%lu-%lu", which gets and gives r1 and r2, and the values that these have at first.
pub record Surroundings : Type 0 where
  pub time : ℕ
  pub scan_range : List ℕ → (r1 r2 : ℕ) → ℕ × ℕ × ℕ
  pub r1 : ℕ
  pub r2 : ℕ

-- The count of sscanf as a size_t, where a range is asked for, or -1 as a size_t; and r1 and r2.
abbrev pub scanned_range : Surroundings → Option (List ℕ) → ℕ × ℕ × ℕ
scanned_range env none = (2 ^ 64 - 1, env.r1, env.r2)
scanned_range env (some text) = env.scan_range text env.r1 env.r2

-- The content length of a part, as a 64-bit word.
abbrev pub part_length : (n r1 r2 size : ℕ) → ℕ
part_length n r1 r2 size =
    if n == 2 then (r2 + 2 ^ 64 - r1 + 1) % 2 ^ 64 else (size + 2 ^ 64 - r1) % 2 ^ 64

-- The header of Method_DoGet, from the size of the file and what was read of the range.
abbrev pub get_header : Surroundings → (mtime size : ℕ) → MineType → ℕ × ℕ × ℕ → Header
get_header env mtime size m (n, r1, r2) =
    let cl = part_length n r1 r2 size in
    if ltb 0 n
    then record {
      status = 206;
      date = env.time;
      last_modified = mtime;
      etag = (mtime, size);
      content_type = m.mime_type;
      content_length = cl;
      range = some (r1, (r1 + cl + 2 ^ 64 - 1) % 2 ^ 64, size);
    }
    else record {
      status = 200;
      date = env.time;
      last_modified = mtime;
      etag = (mtime, size);
      content_type = m.mime_type;
      content_length = size;
      range = none;
    }

-- The assignments at the end of Method_DoGet: `cl` becomes an int.
abbrev pub put_header_in : Header → Response → Response
put_header_in h r = record r {
  res = some h;
  status = h.status;
  cl = signed32 (h.content_length % 2 ^ 32);
}

-- Method_DoGet, on the URI, the text of the range, if its length is not 0, and the size of the file
unfoldable pub method_do_get :
    ℕ → Surroundings → (uri : List ℕ) → Option (List ℕ) → (size : ℕ) → Response → Run Response
method_do_get fuel env uri range size r =
    and_then (mine_type fuel uri)
      λ m. ret (put_header_in (get_header env r.mtime size m (scanned_range env range)) r)

-- Method_Do: the other methods do nothing.
unfoldable pub method_do :
    ℕ
    → Surroundings
    → Method
    → (uri : List ℕ) → Option (List ℕ)
    → (size : ℕ) → Response
    → Run Response
unfolding method_do_get
method_do fuel env method_get uri range size r = method_do_get fuel env uri range size r
method_do fuel env method_head uri range size r =
    and_then (method_do_get fuel env uri range size r) λ u. ret (record u { fd = none })
method_do fuel env method_post uri range size r = ret r
method_do fuel env method_put uri range size r = ret r
method_do fuel env method_delete uri range size r = ret r
method_do fuel env method_cgi uri range size r = ret r
method_do fuel env method_notsupport uri range size r = ret r

-- sizeof(wctl->conn.dres)
abbrev pub dres_size : ℕ
dres_size = 16 * 1024

-- How many bytes the loop of Request_Handle asks for.
abbrev pub chunk : ℤ → ℕ
chunk cl = if ltb_ℤ cl (pos dres_size) then pos_part cl else dres_size

abbrev pub minus : ℤ → ℤ → ℤ
minus a b = sub_ℕ (pos_part a + neg_part b) (neg_part a + pos_part b)

-- The loop of Request_Handle, with the bytes of the file that are not read yet and those that were
-- sent; `written` is what write returns, by the round and the length.
pub send_body :
    (written : ℕ → ℕ → ℤ) → (fuel round : ℕ) → (cl : ℤ) → (rest sent : List ℕ) → Run (List ℕ)
send_body written zero round cl rest sent = starved
send_body written (suc fuel) round cl rest sent =
    let bytes = take (chunk cl) rest in
    let more = drop (chunk cl) rest in
    let n = if ltb 0 (length bytes) then written round (length bytes) else pos 0 in
    let next = send_body written fuel (round + 1) (minus cl n) more (sent ++ bytes) in
    if ltb_ℤ (pos 0) cl then next else ret sent

-- Request_Handle on a request of status 200, with the header that it sends, and the bytes of the body
unfoldable pub request_handle :
    (written : ℕ → ℕ → ℤ)
    → ℕ
    → Surroundings
    → Method
    → (uri : List ℕ) → Option (List ℕ)
    → (size : ℕ) → Response
    → Run (Option Header × List ℕ)
unfolding send_body
request_handle written fuel env method uri range size r =
    and_then (method_do fuel env method uri range size r) λ u.
      and_then (elim u.fd [ none ↦ ret [] | some file ↦ send_body written fuel 0 u.cl file [] ])
        λ body. ret (u.res, body)
