-- ===== src/Tests/Uri.antt =====
-- URIs.
use linux_program_practice.Shttpd.Uri.{uri_parse}
use linux_program_practice.Shttpd.Uri.Dots.{IsClean, uri_parse-IsClean}
use linux_program_practice.Base.{ℕ, ◌≡◌, false, some, List, arith, codes}

abbrev buffer : List ℕ
buffer = codes "/%2e%2e/x HTTP"

uri_parse-IsClean_example : (out : List ℕ) × (uri_parse buffer 10 ≡ some out) × IsClean false out
uri_parse-IsClean_example = uri_parse-IsClean buffer 10 (omega arith)
