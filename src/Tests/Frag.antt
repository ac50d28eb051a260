-- ===== src/Tests/Frag.antt =====
-- A packet of 100 bytes and an MTU of 40.
use linux_program_practice.Sip.Frag.Lost.{ip_frag-lost}
use linux_program_practice.Sip.Frag.{ip_frag, zeros}
use linux_program_practice.Base.{ℕ, ◌≤◌, ◌≡◌, ◌⊎◌, none, some, List, arith, length}

ip_frag-lost_example :
    (ip_frag 40 100 (zeros 114) ≡ none)
    ⊎ ((fs : List (List ℕ)) × (ip_frag 40 100 (zeros 114) ≡ some fs) × (length fs ≤ 1))
ip_frag-lost_example = ip_frag-lost 40 100 (zeros 114) (omega arith)
