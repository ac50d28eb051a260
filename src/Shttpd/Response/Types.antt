-- ===== src/Shttpd/Response/Types.antt =====
-- The search for the type of a file.
use linux_program_practice.Base.Int.{ℤ}
use linux_program_practice.Base.Run.{ret, starved}
use linux_program_practice.Sipfw.ConfFile.{starts_with}
use linux_program_practice.Shttpd.Response.{
  mine_loop, mine_type, request_handle, MineType, builtin_mime_types, method_do, behind_dot,
  method_do_get, Surroundings, html, Response, method_get, method_head,
}
use linux_program_practice.Base.{
  ℕ, zero, suc, ◌<◌, ◌≡◌, refl, true, false, Option, some, List, arith, codes,
}

mine_loop_stuck :
    (fuel : ℕ) (m : MineType) (ext : List ℕ)
    → starts_with m.extension ext ≡ false
    → mine_loop fuel m ext ≡ starved
unfolding mine_loop
mine_loop_stuck zero m ext h = refl
mine_loop_stuck (suc fuel) m ext h = rw h (mine_loop_stuck fuel m ext h)

mine_type_stuck :
    (fuel : ℕ) (uri ext : List ℕ)
    → behind_dot uri ≡ some ext
    → starts_with (codes "html") ext ≡ false
    → mine_type fuel uri ≡ starved
unfolding mine_type builtin_mime_types
mine_type_stuck fuel uri ext dot other = rw dot (mine_loop_stuck fuel html ext other)

pub mine_type-html :
    (fuel : ℕ) (uri ext : List ℕ)
    → 0 < fuel
    → behind_dot uri ≡ some ext
    → starts_with (codes "html") ext ≡ true
    → mine_type fuel uri ≡ ret html
unfolding mine_type builtin_mime_types mine_loop
mine_type-html zero uri ext enough dot is = absurd (omega arith)
mine_type-html (suc fuel) uri ext enough dot is = rw dot (rw is refl)

-- A GET or HEAD of a URI with anything but html behind its first dot: Request_Handle does not end.
pub request_handle_stuck :
    (written : ℕ → ℕ → ℤ) (env : Surroundings) (uri ext : List ℕ) (range : Option (List ℕ))
    (size : ℕ) (r : Response)
    → behind_dot uri ≡ some ext
    → starts_with (codes "html") ext ≡ false
    → (fuel : ℕ)
    → (request_handle written fuel env method_get uri range size r ≡ starved)
      × (request_handle written fuel env method_head uri range size r ≡ starved)
unfolding request_handle method_do method_do_get
request_handle_stuck written env uri ext range size r dot other fuel =
    let stuck = mine_type_stuck fuel uri ext dot other in (rw stuck refl, rw stuck refl)
