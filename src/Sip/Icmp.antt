-- ===== src/Sip/Icmp.antt =====
-- LinuxCodeBak/Code/19/sip_icmp.c: the answer to an echo request and the dispatch of icmp_input. A
-- message is its bytes, the first four its type, code and checksum.
pub mod Echo
use linux_program_practice.Base.{
  ℕ, zero, suc, ◌+◌, ◌-◌, ◌*◌, ◌/◌, ◌%◌, ◌^◌, ◌≤◌, ◌<◌, min, ◌≡◌, refl, sym, ap, subst, ◌∙◌, ◌≢◌,
  ◌↔◌, ◌⊎◌, inl, inr, Bool, true, false, not, ◌&&◌, ◌||◌, Option, none, some, List, [], ◌∷◌, ◌++◌,
  map, append-nil, append_assoc, arith, ltb, leb, ◌==◌, if◌then◌else◌, ltb→lt, lt→ltb, leb→le,
  ==_iff, &&_iff, Bool-cases, Option-cases, ◌>>=◌, >>=-eq-some, length, get_elem?, set, take, drop,
  All, length-append, length-set, get_elem?-set_self, get_elem?-set_ne, All-set, All-get,
  take-append-drop, length-take, length-drop, codes, get_elem?-append, set-append, All-append,
  take-append, drop-append,
}
use mathlib.Core.Option
use linux_program_practice.Sip.Arp.{NetDevice}
use linux_program_practice.Sip.Checksum.{chksum, htons, stored}
use linux_program_practice.Sip.Ip.{ip_is_broadcast, ip_is_multicast, ip_output, Output, u16_at}

abbrev pub icmp_echo_type : ℕ
icmp_echo_type = 8

abbrev pub icmp_echoreply : ℕ
icmp_echoreply = 0

abbrev pub nr_icmp_types : ℕ
nr_icmp_types = 18

-- The update of the checksum in icmp_echo, on the __u16 in memory.
abbrev pub echo_checksum : ℕ → ℕ
echo_checksum c =
    if leb (htons (0xFFFF - icmp_echo_type * 256)) c
    then (c + (htons (icmp_echo_type * 256) + 1)) % 2 ^ 16
    else (c + htons (icmp_echo_type * 256)) % 2 ^ 16

-- The message of the reply, made in place of the request.
unfoldable pub echo_reply : List ℕ → Option (List ℕ)
echo_reply (kind ∷ code ∷ c0 ∷ c1 ∷ rest) =
    some (icmp_echoreply ∷ code ∷ (stored (echo_checksum (u16_at c0 c1)) ++ rest))
echo_reply bytes = none

-- What a handler leaves: nothing, or a message and what ip_output makes of the header in front.
pub data Handled : Type 0 where
  silent : Handled
  answered : List ℕ → Output → Handled

-- icmp_echo, for a frame of `n` bytes with the IP header `raw`, from `saddr` to `daddr`.
unfoldable pub icmp_echo : NetDevice → (mtu n saddr daddr : ℕ) → List ℕ → List ℕ → Option Handled
icmp_echo dev mtu n saddr daddr raw message =
    if ip_is_broadcast dev daddr || ip_is_multicast daddr then some silent else (do
      reply ← echo_reply message
      out ← ip_output mtu n dev.ip_host saddr 255 0 1 raw
      some (answered reply out))

-- Of the handlers in icmp_pointers, only that of ICMP_ECHO does anything.
abbrev pub handler : NetDevice → (kind mtu n saddr daddr : ℕ) → List ℕ → List ℕ → Option Handled
handler dev kind mtu n saddr daddr raw message =
    let echo = icmp_echo dev mtu n saddr daddr raw message in
    if kind == icmp_echo_type then echo else some silent

-- The part of icmp_input behind the test of the checksum. `false` beside the result means that the
-- packet was freed.
abbrev pub icmp_typed :
    NetDevice → (mtu n saddr daddr : ℕ) → List ℕ → List ℕ → Option (Bool × Handled)
icmp_typed dev mtu n saddr daddr raw message = do
  kind ← get_elem? message 0
  let handled = Option.map (λ h. (true, h)) (handler dev kind mtu n saddr daddr raw message)
  (if ltb nr_icmp_types kind then some (false, silent) else handled)

-- icmp_input: `none_summed` is whether skb->ip_summed is CHECKSUM_NONE, and then the checksum of no
-- bytes is tested.
unfoldable pub icmp_input :
    NetDevice
    → (none_summed : Bool) → (mtu n saddr daddr : ℕ) → List ℕ
    → List ℕ
    → Option (Bool × Handled)
icmp_input dev none_summed mtu n saddr daddr raw message = do
  sum ← (if none_summed then chksum raw 0 else some 0)
  let typed = icmp_typed dev mtu n saddr daddr raw message
  (if not (sum == 0) then some (false, silent) else typed)
