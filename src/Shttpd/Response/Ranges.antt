-- ===== src/Shttpd/Response/Ranges.antt =====
-- Which bytes of a file are sent, and what the header says of them.
use linux_program_practice.Shttpd.Response.Types.{mine_type-html}
use linux_program_practice.Base.Run.{ret}
use linux_program_practice.Sipfw.ConfFile.{starts_with}
use linux_program_practice.Shttpd.Response.Body.{WritesAll, send_body-Sent}
use linux_program_practice.Base.Int.{ℤ, signed32, pos}
use linux_program_practice.Shttpd.Response.{
  Surroundings, Header, Response, behind_dot, request_handle, method_do, method_get, method_do_get,
  scanned_range, part_length,
}
use linux_program_practice.Base.{
  ℕ, ◌+◌, ◌-◌, ◌%◌, ◌^◌, ◌≤◌, ◌<◌, ◌≡◌, refl, true, Option, none, some, List, arith, ltb, length,
  take, codes,
}

-- The header of an answer with a part of a file, from byte `first`.
abbrev pub part_header : Surroundings → (mtime size first count : ℕ) → Header
part_header env mtime size first count = record {
  status = 206;
  date = env.time;
  last_modified = mtime;
  etag = (mtime, size);
  content_type = codes "text/html";
  content_length = count;
  range = some (first, first + count - 1, size);
}

module _ (written : ℕ → ℕ → ℤ) (all : WritesAll written) (fuel : ℕ) (env : Surroundings)
    (uri ext file : List ℕ) (r : Response) (dot : behind_dot uri ≡ some ext)
    (is_html : starts_with (codes "html") ext ≡ true) (open_file : r.fd ≡ some file)
    (size : length file < 2 ^ 31) where
  -- The answer, where the part that is asked for is within the file.
  get_part :
      (range : Option (List ℕ)) (n r1 r2 count : ℕ)
      → scanned_range env range ≡ (n, r1, r2)
      → 0 < n
      → part_length n r1 r2 (length file) ≡ count
      → 0 < count
      → r1 + count ≤ length file
      → count < fuel
      → request_handle written fuel env method_get uri range (length file) r
        ≡ ret (some (part_header env r.mtime (length file) r1 count), take count file)
  unfolding request_handle method_do method_do_get
  get_part range n r1 r2 count scan some_read part positive within enough =
      let found = mine_type-html fuel uri ext (omega arith) dot is_html in
      let test : ltb 0 n ≡ true = ground (arith, some_read) in
      let last : (r1 + count + 2 ^ 64 - 1) % 2 ^ 64 ≡ r1 + count - 1 =
        omega (arith, size, within, positive) in
      let int : signed32 (count % 2 ^ 32) ≡ pos count = ground (arith, size, within) in
      let body =
        (send_body-Sent written all count file).0 fuel (omega arith) (omega (arith, enough)) in
      rw found (rw open_file (rw scan (rw test (rw part (rw last (rw int (rw body refl)))))))

  -- A GET of an html file with a range from r1 to r2 within the file, where write writes everything:
  -- the header names this part of the file, and the bytes sent are as many, but the first of the file.
  pub request_handle_range :
      (text : List ℕ) (r1 r2 : ℕ)
      → env.scan_range text env.r1 env.r2 ≡ (2, r1, r2)
      → r1 ≤ r2
      → r2 < length file
      → r2 - r1 + 1 < fuel
      → request_handle written fuel env method_get uri (some text) (length file) r
        ≡ ret
            (some (part_header env r.mtime (length file) r1 (r2 - r1 + 1)), take (r2 - r1 + 1) file)
  request_handle_range text r1 r2 scan order within enough =
      get_part (some text) 2 r1 r2 (r2 - r1 + 1) scan (omega arith) (omega (arith, size))
        (omega arith) (omega arith) enough

  -- A GET of an html file without a range, where write writes everything and the variable r1, which
  -- nothing has set, happens to be within the file: the answer is the part of the file from there on,
  -- by its header, and as many bytes, but the first of the file.
  pub request_handle_no_range :
      env.r1 < length file
      → length file - env.r1 < fuel
      → request_handle written fuel env method_get uri none (length file) r
        ≡ ret (
          some (part_header env r.mtime (length file) env.r1 (length file - env.r1)),
          take (length file - env.r1) file,
        )
  request_handle_no_range within enough =
      get_part none (2 ^ 64 - 1) env.r1 env.r2 (length file - env.r1) refl (omega arith)
        (omega (arith, size)) (omega arith) (omega arith) enough
