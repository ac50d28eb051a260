-- ===== src/Sip/Ip/Delivery.antt =====
-- LinuxCodeBak/Code/19/sip_ip.c: the whole of ip_input, with sip_reassemble and the `switch` behind it.
-- The buffer is at an address; the header is read there again after sip_reassemble, as the code does.
use linux_program_practice.Base.{ℕ, ◌≡◌, ◌⊎◌, Bool, true, false, Option, none, some, drop}
use linux_program_practice.Base.Run.{Run, ret, and_then, read}
use linux_program_practice.Sip.Arp.{NetDevice}
use linux_program_practice.Sip.Ip.{
  SipIphdr, Input, dropped, fragment, to_icmp, to_udp, ignored, deliver, ip_accept,
}
use linux_program_practice.Sip.Reassembly.{Fragments, Allocs, sip_reassemble, header_at, put}

-- What becomes of a packet: it is freed, kept by sip_reassemble, or given on, with the address of the
-- buffer that is given.
pub data Arrival : Type 0 where
  discarded : Arrival
  kept : Arrival
  passed_on : (skb : ℕ) → Input → Arrival

-- What follows sip_reassemble: the protocol is read from the header of the buffer that came in.
abbrev pub after_reassembly : (skb : ℕ) → Option ℕ → Fragments → Run (Arrival × Fragments)
after_reassembly skb none st = ret (kept, st)
after_reassembly skb (some s) st =
    and_then (header_at skb st) λ iph. ret (passed_on s (deliver iph.protocol), st)

-- The rest of ip_input, by what its checks say.
abbrev pub by_checks :
    ℕ → (now : ℕ) → Allocs → (skb : ℕ) → Fragments → Input → Run (Arrival × Fragments)
by_checks fuel now mem skb st dropped = ret (discarded, record st { skbs = put skb none st.skbs })
by_checks fuel now mem skb st fragment =
    and_then (sip_reassemble fuel now mem skb st) λ r. after_reassembly skb r.0 r.1
by_checks fuel now mem skb st to_icmp = ret (passed_on skb to_icmp, st)
by_checks fuel now mem skb st to_udp = ret (passed_on skb to_udp, st)
by_checks fuel now mem skb st ignored = ret (passed_on skb ignored, st)

-- ip_input, at time `now`, on the buffer at `skb`, from a frame of `tot_len` bytes
unfoldable pub ip_input :
    ℕ → (now : ℕ) → Allocs → NetDevice → (tot_len skb : ℕ) → Fragments → Run (Arrival × Fragments)
ip_input fuel now mem dev tot_len skb st = and_then (read (st.skbs skb)) λ b.
    and_then (read (ip_accept dev tot_len (drop b.nh b.buf))) λ r. by_checks fuel now mem skb st r

-- What ip_input does with a packet that is not a fragment, and with one that is.
abbrev pub Passed :
    ℕ → (now : ℕ) → Allocs → (skb : ℕ) → Fragments → SipIphdr → Bool → Arrival × Fragments → Type 0
Passed fuel now mem skb st iph false r = r ≡ (passed_on skb (deliver iph.protocol), st)
Passed fuel now mem skb st iph true r =
    ((sip_reassemble fuel now mem skb st ≡ ret (none, r.1)) × (r.0 ≡ kept))
    ⊎ ((s : ℕ) × (h : SipIphdr) × (sip_reassemble fuel now mem skb st ≡ ret (some s, r.1))
        × (header_at skb r.1 ≡ ret h)
        × (r.0 ≡ passed_on s (deliver h.protocol)))
