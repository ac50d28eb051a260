-- ===== src/Sip/Reassembly/Never.antt =====
-- What sip_reassemble makes of fragments.
use mathlib.Core.Option
use linux_program_practice.Sip.Frag.{zeros}
use linux_program_practice.Sip.Reassembly.{mark_last, add_fragment, insert_fragment, total_length}
use linux_program_practice.Sip.Frag.{copy_from, copy_to}
use linux_program_practice.Base.{
  ℕ, zero, suc, ◌+◌, ◌<◌, ◌≡◌, ◌≢◌, refl, Option, none, some, lt→ltb, subst, ==_iff, ◌≤◌, false,
  List, [], ◌++◌, arith, ◌==◌, length, take, drop, length-take, sym, ◌∙◌,
}
use linux_program_practice.Base.Run.{ret, read, and_then-eq-ret}
use linux_program_practice.Sip.Ip.{SipIphdr, iph_of}
use linux_program_practice.Sip.Reassembly.{
  Fragments, SipReass, Place, Allocs, sip_reassemble, search_reass, drop_expired, free_reass,
  free_skbs, change_chain, header_at, put, SipSkbuff, new_reass,
}

ret_injective {ℓ} : {A : Type ℓ} {a b : A} → ret a ≡ ret b → a ≡ b
ret_injective h = cc

-- A freed entry is not allocated any more.
free_reass-frees :
    (fuel a : ℕ) (st : Fragments) {st' : Fragments}
    → free_reass fuel a st ≡ ret st'
    → st'.chains a ≡ none
unfolding free_reass
free_reass-frees fuel a st h =
    let (c, _, h1) = and_then-eq-ret (read (st.chains a)) _ h in
    let (st1, _, h2) = and_then-eq-ret (free_skbs fuel c.skb st) _ h1 in
    subst (λ (s : Fragments). s.chains a ≡ none) (ret_injective h2) (rw ((==_iff a a).1 refl) refl)

drop_expired-head :
    (fuel a : ℕ) (c : SipReass) (st : Fragments) {r : Place × Fragments}
    → drop_expired fuel (some a) a c st ≢ ret r
unfolding drop_expired
drop_expired-head fuel a c st h =
    let (st1, _, h1) =
      and_then-eq-ret (change_chain (some a) (λ l. record l { next = c.next }) st) _ h in
    let (st2, freed, h2) = and_then-eq-ret (free_reass fuel a st1) _ h1 in
    cc (rw (free_reass-frees fuel a st1 freed) at h2)

search_reass-head :
    (fuel now : ℕ) (frag : SipIphdr) (a : ℕ) (c : SipReass) (st : Fragments) {r : Place × Fragments}
    → st.chains a ≡ some c
    → c.timer + 3 < now
    → search_reass fuel now frag (some a) (some a) st ≢ ret r
unfolding search_reass
search_reass-head zero now frag a c st there old h = cc
search_reass-head (suc fuel) now frag a c st there old h =
    let expired = lt→ltb (c.timer + 3) now old in
    let h1 = rw there at h in
    let h2 = rw expired at h1 in
    let (r, dropped, _) = and_then-eq-ret (drop_expired fuel (some a) a c st) _ h2 in
    drop_expired-head fuel a c st dropped

search_reass-list :
    (fuel now : ℕ) (frag : SipIphdr) (l : Option ℕ) (a : ℕ) (c : SipReass) (st : Fragments)
    {r : Place × Fragments}
    → l ≡ some a
    → st.chains a ≡ some c
    → c.timer + 3 < now
    → search_reass fuel now frag l l st ≢ ret r
search_reass-list fuel now frag none a c st head there old h = cc
search_reass-list fuel now frag (some b) a c st head there old h =
    search_reass-head fuel now frag b c st (rw (Option.some_inj.0 head) there) old h

-- With an entry in the list that is older than three seconds, sip_reassemble does not return.
again_lem :
    (fuel now : ℕ) (given : Allocs) (skb a : ℕ) (c : SipReass) (st : Fragments)
    {r : Option ℕ × Fragments}
    → st.ip_reass_list ≡ some a
    → st.chains a ≡ some c
    → c.timer + 3 < now
    → sip_reassemble fuel now given skb st ≢ ret r
unfolding sip_reassemble
again_lem fuel now given skb a c st head there old h =
    let (frag, _, h1) = and_then-eq-ret (header_at skb st) _ h in
    let (found, searched, _) =
      and_then-eq-ret (search_reass fuel now frag st.ip_reass_list st.ip_reass_list st) _ h1 in
    search_reass-list fuel now frag st.ip_reass_list a c st head there old searched

-- The entry that a fragment makes.
abbrev entry_with : List ℕ → SipReass
entry_with hdr = record {
  next = none;
  skb = none;
  iphdr = hdr;
  datagram_len = 0;
  flags = 0;
  timer = 0;
}

copy_four :
    (at : ℕ) (buf : List ℕ) → at + 4 ≤ length buf → copy_from at 4 buf ≡ some (take 4 (drop at buf))
unfolding copy_from
copy_four at buf h = ground (arith, h)

put_four : (src : List ℕ) → length src ≤ 20 → (hdr : List ℕ) × (copy_to 0 src (zeros 20) ≡ some hdr)
unfolding copy_to
put_four src h = (src ++ drop (0 + length src) (zeros 20), ground (arith, h))

new_reass_lem :
    (a skb : ℕ) (b : SipSkbuff) (st : Fragments)
    → st.ip_reass_list ≡ none
    → st.skbs skb ≡ some b
    → b.nh + 4 ≤ length b.buf
    → (hdr : List ℕ) × (new_reass (some a) skb st
        ≡ ret (
          some a,
          record st { chains = put a (some (entry_with hdr)) st.chains; ip_reass_list = some a },
        ))
unfolding new_reass
new_reass_lem a skb b st empty there inside =
    let src = take 4 (drop b.nh b.buf) in
    let copied = copy_four b.nh b.buf inside in
    let (hdr, placed) = put_four src (omega (arith, length-take 4 (drop b.nh b.buf))) in
    (hdr, rw there (rw copied (rw placed (rw empty refl))))

-- The length that a last fragment gives to its datagram.
abbrev pub says_length : SipIphdr → ℕ
says_length frag = (mark_last frag (entry_with [])).datagram_len

mark_last-entry :
    (frag : SipIphdr) (hdr : List ℕ)
    → ((mark_last frag (entry_with hdr)).datagram_len ≡ says_length frag)
      × ((mark_last frag (entry_with hdr)).skb ≡ none)
      × ((mark_last frag (entry_with hdr)).timer ≡ 0)
mark_last-entry frag hdr = ground arith

-- A fragment in a new entry.
add_fragment_lem :
    (fuel : ℕ) (buffer : Option ℕ) (skb a : ℕ) (frag : SipIphdr) (st : Fragments) (c : SipReass)
    → st.chains a ≡ some c
    → (mark_last frag c).skb ≡ none
    → (mark_last frag c).datagram_len ≢ 20
    → add_fragment (suc fuel) buffer skb frag none (some a) st
      ≡ ret (some skb, record st { chains = put a (some (mark_last frag c)) st.chains })
unfolding add_fragment insert_fragment total_length
add_fragment_lem fuel buffer skb a frag st c there bare other =
    let self = (==_iff a a).1 refl in
    let differ : (20 == (mark_last frag c).datagram_len) ≡ false = ground (arith, other) in
    rw there (rw self (rw bare (rw self (rw bare (rw differ refl)))))

search_reass-empty :
    (fuel now : ℕ) (frag : SipIphdr) (l : Option ℕ) (st : Fragments)
    → l ≡ none
    → search_reass (suc fuel) now frag l l st ≡ ret (record { ipr_prev = none; ipr = none }, st)
unfolding search_reass
search_reass-empty fuel now frag none st empty = refl
search_reass-empty fuel now frag (some a) st empty = cc

-- While there is no entry, and where malloc gives one: a fragment with a whole header, which is not a
-- last fragment from which the datagram comes out at 20 bytes, is given back by sip_reassemble as it
-- is. Once the clock is past 3, no later call returns, whatever the buffers hold by then.
pub sip_reassemble_never :
    (fuel now : ℕ) (buffer : Option ℕ) (a skb : ℕ) (b : SipSkbuff) (frag : SipIphdr)
    (st : Fragments) (fuel' now' : ℕ) (given : Allocs) (skb' : ℕ) (skbs' : ℕ → Option SipSkbuff)
    (r : Option ℕ × Fragments)
    → st.ip_reass_list ≡ none
    → st.skbs skb ≡ some b
    → b.nh + 4 ≤ length b.buf
    → iph_of (drop b.nh b.buf) ≡ some frag
    → says_length frag ≢ 20
    → 3 < now'
    → (st' : Fragments) × (sip_reassemble
          (suc fuel)
          now
          (record { entry = some a; buffer = buffer })
          skb
          st
        ≡ ret (some skb, st'))
      × (st'.skbs ≡ st.skbs)
      × (sip_reassemble fuel' now' given skb' (record st' { skbs = skbs' }) ≢ ret r)
unfolding sip_reassemble
sip_reassemble_never fuel now buffer a skb b frag st fuel' now' given skb' skbs' r empty there
      inside header other later =
    let (hdr, made) = new_reass_lem a skb b st empty there inside in
    let c = entry_with hdr in
    let (says, bare, fresh) = mark_last-entry frag hdr in
    let st1 = record st { chains = put a (some c) st.chains; ip_reass_list = some a } in
    let st' = record st1 { chains = put a (some (mark_last frag c)) st1.chains } in
    let self = (==_iff a a).1 refl in
    let searched = search_reass-empty fuel now frag st.ip_reass_list st empty in
    let added =
      add_fragment_lem fuel buffer skb a frag st1 c (rw self refl) bare
        (λ e. other (sym says ∙ e)) in
    (
      st',
      rw there (rw header (rw searched (rw made added))),
      refl,
      again_lem fuel' now' given skb' a (mark_last frag c) (record st' { skbs = skbs' }) refl
          (rw self refl) (rw fresh later),
    )
