-- ===== src/Tests/Reassembly.antt =====
-- A fragment that stands in a frame of 60 bytes.
use linux_program_practice.Sip.Ip.{SipIphdr, iph_of}
use linux_program_practice.Sip.Reassembly.Never.{sip_reassemble_never}
use linux_program_practice.Sip.Reassembly.{Fragments, SipSkbuff, sip_reassemble}
use linux_program_practice.Sip.Frag.{zeros}
use linux_program_practice.Base.Run.{ret}
use linux_program_practice.Base.{
  ◌≡◌, ◌≢◌, refl, none, some, ◌∷◌, ◌++◌, arith, ◌==◌, if◌then◌else◌, ◌*◌, drop,
}

-- With frag_off 0x2000: more fragments follow.
abbrev fragment : SipSkbuff
fragment = record {
  next = none;
  buf = zeros 14 ++ (0x45 ∷ 0 ∷ 0 ∷ 46 ∷ 0 ∷ 7 ∷ 0x20 ∷ 0 ∷ zeros 38);
  nh = 14;
  tail = 34;
}

abbrev read_header : SipIphdr
read_header = record {
  ihl = 5;
  version = 4;
  tos = 0;
  tot_len = 46 * 256;
  id = 7 * 256;
  frag_off = 0x20;
  ttl = 0;
  protocol = 0;
  check = 0;
  saddr = 0;
  daddr = 0;
}

fragment_header : iph_of (drop 14 fragment.buf) ≡ some read_header
unfolding iph_of
fragment_header = refl

abbrev nothing_kept : Fragments
nothing_kept = record {
  skbs = λ a. if a == 5 then some fragment else none;
  chains = λ a. none;
  ip_reass_list = none;
}

sip_reassemble_never_example :
    (st' : Fragments) × (sip_reassemble 2 100
        (record { entry = some 1; buffer = none })
        5
        nothing_kept
      ≡ ret (some 5, st'))
    × (st'.skbs ≡ nothing_kept.skbs)
    × (sip_reassemble 9 101
          (record { entry = some 2; buffer = some 3 })
          5
          (record st' { skbs = nothing_kept.skbs })
        ≢ ret (some 3, nothing_kept))
sip_reassemble_never_example =
    sip_reassemble_never 1 100 none 1 5 fragment read_header nothing_kept 9 101
      (record { entry = some 2; buffer = some 3 }) 5 nothing_kept.skbs (some 3, nothing_kept) refl
      refl (omega arith) fragment_header (omega arith) (omega arith)
