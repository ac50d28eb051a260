-- ===== src/Sip/Reassembly.antt =====
-- LinuxCodeBak/Code/19/sip_ip.c: sip_reassemble. The structs skbuff and sip_reass are at addresses that
-- malloc gave, and a null pointer is `none`. Every loop runs on fuel. The first sum of the lengths,
-- which is overwritten before it is read, is left out.
pub mod Never
use linux_program_practice.Base.{
  ℕ, zero, suc, ◌+◌, ◌-◌, ◌*◌, ◌/◌, ◌%◌, ◌^◌, Bool, true, false, ◌&&◌, Option, none, some, List,
  ltb, ◌==◌, if◌then◌else◌, length, drop, not, ◌≤◌, ◌<◌, min, ◌≡◌, refl, sym, ap, subst, ◌∙◌, ◌≢◌,
  ◌↔◌, ◌⊎◌, inl, inr, ◌||◌, [], ◌∷◌, ◌++◌, map, append-nil, append_assoc, arith, leb, ltb→lt,
  lt→ltb, leb→le, ==_iff, &&_iff, Bool-cases, Option-cases, ◌>>=◌, >>=-eq-some, get_elem?, set,
  take, All, length-append, length-set, get_elem?-set_self, get_elem?-set_ne, All-set, All-get,
  take-append-drop, length-take, length-drop, codes, get_elem?-append, set-append, All-append,
  take-append, drop-append, get_elem?-none, get_elem?-lt, get_elem?-outside,
}
use linux_program_practice.Base.Run.{Run, ret, fault, starved, and_then, read}
use linux_program_practice.Sip.Checksum.{chksum, htons, stored}
use linux_program_practice.Sip.Ip.{SipIphdr, iph_of}
use linux_program_practice.Sip.Frag.{zeros, new_buffer, copy_from, copy_to}

-- struct skbuff: `buf` is what stands from head to end, nh and tail are indices.
pub record SipSkbuff : Type 0 where
  pub next : Option ℕ
  pub buf : List ℕ
  pub nh : ℕ
  pub tail : ℕ

-- struct sip_reass, with the bytes of its iphdr
pub record SipReass : Type 0 where
  pub next : Option ℕ
  pub skb : Option ℕ
  pub iphdr : List ℕ
  pub datagram_len : ℕ
  pub flags : ℕ
  pub timer : ℕ

-- What is allocated, and ip_reass_list.
pub record Fragments : Type 0 where
  pub skbs : ℕ → Option SipSkbuff
  pub chains : ℕ → Option SipReass
  pub ip_reass_list : Option ℕ

abbrev pub put {ℓ} : {A : Type ℓ} → ℕ → Option A → (ℕ → Option A) → ℕ → Option A
put a v m b = if b == a then v else m b

abbrev pub follow_reass {ℓ} : {A : Type ℓ} → (ℕ → Option A) → Option ℕ → Run A
follow_reass m none = fault
follow_reass m (some a) = read (m a)

-- An assignment to fields of the struct at `a`.
abbrev pub change_skb : ℕ → (SipSkbuff → SipSkbuff) → Fragments → Run Fragments
change_skb a f st =
    and_then (read (st.skbs a)) λ b. ret (record st { skbs = put a (some (f b)) st.skbs })

abbrev pub change_chain : Option ℕ → (SipReass → SipReass) → Fragments → Run Fragments
change_chain none f st = fault
change_chain (some a) f st =
    and_then (read (st.chains a)) λ c. ret (record st { chains = put a (some (f c)) st.chains })

-- The header of the buffer at `a`.
abbrev pub header_at : ℕ → Fragments → Run SipIphdr
header_at a st = and_then (read (st.skbs a)) λ b. read (iph_of (drop b.nh b.buf))

-- skb->nh.iph->tot_len = htons(modify)
abbrev pub set_tot_len : ℕ → (modify : ℕ) → Fragments → Run Fragments
set_tot_len a modify st = and_then (read (st.skbs a)) λ b.
    and_then (read (copy_to (b.nh + 2) (stored (htons modify)) b.buf))
      λ buf. ret (record st { skbs = put a (some (record b { buf = buf })) st.skbs })

-- IP_FREE_REASS: its loop, from `skb` on, and the whole.
pub free_skbs : ℕ → Option ℕ → Fragments → Run Fragments
free_skbs zero skb st = starved
free_skbs (suc fuel) none st = ret st
free_skbs (suc fuel) (some a) st =
    and_then (read (st.skbs a)) λ b. free_skbs fuel b.next (record st { skbs = put a none st.skbs })

unfoldable pub free_reass : ℕ → ℕ → Fragments → Run Fragments
free_reass fuel a st =
    and_then (read (st.chains a)) λ c.
      and_then (free_skbs fuel c.skb st) λ st. ret (record st { chains = put a none st.chains })

-- The test of an entry against a fragment.
abbrev pub belongs : SipIphdr → SipIphdr → Bool
belongs h frag = h.daddr == frag.daddr && h.saddr == frag.saddr && h.id == frag.id

-- A place in the list: ipr_prev and ipr.
pub record Place : Type 0 where
  pub ipr_prev : Option ℕ
  pub ipr : Option ℕ

-- An entry at `a` that is too old is taken out of the list and freed.
unfoldable pub drop_expired : ℕ → Option ℕ → ℕ → SipReass → Fragments → Run (Place × Fragments)
drop_expired fuel none a c st =
    and_then (change_chain st.ip_reass_list (λ l. record l { next = c.next }) st) λ st.
      and_then (follow_reass st.chains c.next) λ behind. and_then (free_reass fuel a st) λ st.
        and_then (change_chain (some a) (λ l. record l { next = none }) st)
          λ st. ret (record { ipr_prev = some a; ipr = behind.next }, st)
drop_expired fuel (some p) a c st =
    and_then (change_chain (some p) (λ l. record l { next = c.next }) st) λ st.
      and_then (free_reass fuel a st) λ st.
        and_then (read (st.chains p)) λ l. ret (record { ipr_prev = some p; ipr = l.next }, st)

-- The loop that looks for the entry of a fragment, at time `now`: where it ends, with `none` for ipr
-- where no entry is found.
pub search_reass :
    ℕ → (now : ℕ) → SipIphdr → (ipr_prev ipr : Option ℕ) → Fragments → Run (Place × Fragments)
search_reass zero now frag ipr_prev ipr st = starved
search_reass (suc fuel) now frag ipr_prev none st =
    ret (record { ipr_prev = ipr_prev; ipr = none }, st)
search_reass (suc fuel) now frag ipr_prev (some a) st =
    let retry = search_reass fuel now frag ipr_prev (some a) st in
    and_then (read (st.chains a)) λ c.
      let dropped =
        and_then (drop_expired fuel ipr_prev a c st)
          (λ r. search_reass fuel now frag r.0.ipr_prev r.0.ipr r.1) in
      let here = and_then (read (iph_of c.iphdr)) (λ h.
        if belongs h frag then ret (record { ipr_prev = ipr_prev; ipr = some a }, st) else retry) in
      if ltb (c.timer + 3) now then dropped else here

-- FRAG_OFFSET; in sip_reassemble, offset itself is computed without ntohs.
abbrev pub frag_offset : ℕ → ℕ
frag_offset frag_off = htons (frag_off % 0x2000) * 8

abbrev pub fragment_offset : SipIphdr → ℕ
fragment_offset h = h.frag_off % 0x2000 * 8

-- tot_len - ihl << 2, which is (tot_len - ihl) << 2
abbrev pub len_of : SipIphdr → ℕ
len_of h = (h.tot_len + 2 ^ 16 - h.ihl) * 4 % 2 ^ 16

-- The entry for a fragment: a new one, if malloc gives it an address, or the one that was found.
unfoldable pub new_reass : (given : Option ℕ) → (skb : ℕ) → Fragments → Run (Option ℕ × Fragments)
new_reass none skb st = ret (none, record st { skbs = put skb none st.skbs })
new_reass (some a) skb st = and_then (read (st.skbs skb)) λ b.
    and_then (read (copy_from b.nh 4 b.buf)) λ bytes.
      and_then (read (copy_to 0 bytes (zeros 20))) λ hdr.
        let entry : SipReass = record {
          next = st.ip_reass_list;
          skb = none;
          iphdr = hdr;
          datagram_len = 0;
          flags = 0;
          timer = 0;
        } in
        ret (some a, record st { chains = put a (some entry) st.chains; ip_reass_list = some a })

unfoldable pub old_reass : (a skb : ℕ) → SipIphdr → Fragments → Run Fragments
old_reass a skb frag st = and_then (read (st.chains a)) λ c. and_then (read (iph_of c.iphdr)) λ h.
    and_then (read (st.skbs skb)) λ b. and_then (read (copy_from b.nh 20 b.buf)) λ hdr.
      let newer = record st { chains = put a (some (record c { iphdr = hdr })) st.chains } in
      ret (if frag.frag_off % 0x2000 == 0 && not (h.frag_off % 0x2000 == 0) then newer else st)

-- What the last fragment of a datagram says of its length.
abbrev pub mark_last : SipIphdr → SipReass → SipReass
mark_last frag c =
    if frag.frag_off / htons 0x2000 % 2 == 0
    then record c {
      flags = c.flags / 2 * 2 + 1;
      datagram_len = (fragment_offset frag + len_of frag) % 2 ^ 16;
    }
    else c

-- A fragment before the first one of its entry at `a`.
unfoldable pub insert_first : (a skb cur : ℕ) → SipIphdr → Fragments → Run Fragments
insert_first a skb cur frag st = and_then (read (st.chains a)) λ c.
    and_then (change_skb skb (λ b. record b { next = c.skb }) st) λ st.
      and_then (change_chain (some a) (λ c. record c { skb = some skb }) st) λ st.
        and_then (header_at cur st) λ h.
          let offset = fragment_offset frag in
          let modify = (frag_offset h.frag_off + 20 - offset) % 2 ^ 16 in
          let shorter = if offset == 0 then (modify + 2 ^ 16 - 20) % 2 ^ 16 else modify in
          if ltb (frag_offset h.frag_off) (offset + len_of frag + 20)
          then set_tot_len skb shorter st
          else ret st

-- A fragment between two others.
unfoldable pub insert_between : (skb before cur : ℕ) → SipIphdr → Fragments → Run Fragments
insert_between skb before cur frag st =
    and_then (change_skb skb (λ b. record b { next = some cur }) st) λ st.
      and_then (change_skb before (λ b. record b { next = some skb }) st) λ st.
        and_then (header_at cur st) λ h.
          let offset = fragment_offset frag in
          let cut = set_tot_len skb ((frag_offset h.frag_off + 20 - offset) % 2 ^ 16) st in
          and_then (if ltb (frag_offset h.frag_off) (offset + len_of frag) then cut else ret st)
            λ st. and_then (header_at before st) λ g. and_then (header_at cur st) λ h.
              if ltb (frag_offset h.frag_off + 20) (frag_offset g.frag_off + htons g.tot_len)
              then set_tot_len before ((frag_offset g.frag_off + 20 + 2 ^ 16 - offset) % 2 ^ 16) st
              else ret st

-- The loop that looks for the place of a fragment.
pub insert_fragment :
    ℕ → (a skb : ℕ) → SipIphdr → (before cur : Option ℕ) → Fragments → Run Fragments
insert_fragment zero a skb frag before cur st = starved
insert_fragment (suc fuel) a skb frag before none st = ret st
insert_fragment (suc fuel) a skb frag none (some cur) st = and_then (header_at cur st) λ h.
    let first = insert_first a skb cur frag st in
    and_then (if ltb (fragment_offset frag) (frag_offset h.frag_off) then first else ret st)
      λ st. and_then (read (st.skbs cur)) λ b. insert_fragment fuel a skb frag (some cur) b.next st
insert_fragment (suc fuel) a skb frag (some before) (some cur) st = and_then (header_at cur st) λ h.
    and_then (header_at before st) λ g.
      let on =
        and_then (read (st.skbs cur)) (λ b. insert_fragment fuel a skb frag (some cur) b.next st) in
      if ltb (fragment_offset frag) (frag_offset h.frag_off)
        && ltb (frag_offset g.frag_off) (fragment_offset frag)
      then insert_between skb before cur frag st
      else on

-- The sum of the lengths from `cur` on, a __u32.
pub total_length : ℕ → (cur : Option ℕ) → (sum : ℕ) → Fragments → Run ℕ
total_length zero cur sum st = starved
total_length (suc fuel) none sum st = ret sum
total_length (suc fuel) (some cur) sum st = and_then (header_at cur st) λ h.
    and_then (read (st.skbs cur))
      λ b. total_length fuel b.next ((sum + h.tot_len + 2 ^ 32 - 20) % 2 ^ 32) st

-- The loop that copies the fragments into the buffer `buf`, whose tail is given: it stays at `cur`.
pub copy_fragments : ℕ → (cur : Option ℕ) → (tail : ℕ) → (buf : List ℕ) → Fragments → Run (List ℕ)
copy_fragments zero cur tail buf st = starved
copy_fragments (suc fuel) none tail buf st = ret buf
copy_fragments (suc fuel) (some cur) tail buf st = and_then (read (st.skbs cur)) λ b.
    and_then (header_at cur st) λ h.
      and_then (read (copy_from b.tail ((h.tot_len + 2 ^ 32 - h.ihl) * 4 % 2 ^ 32) b.buf)) λ bytes.
        and_then (read (copy_to tail bytes buf))
          λ buf. copy_fragments fuel (some cur) (tail + (length b.buf - b.tail)) buf st

-- The whole datagram of the entry `c` at `a`, in a buffer at the address that skb_alloc gives.
unfoldable pub assemble :
    ℕ → (buffer ipr_prev : Option ℕ) → (a : ℕ) → SipReass → Fragments → Run (Option ℕ × Fragments)
unfolding copy_fragments
assemble fuel none ipr_prev a c st = fault
assemble fuel (some b) ipr_prev a c st =
    let n = (c.datagram_len + 20) % 2 ^ 16 in
    and_then (change_chain (some a) (λ c. record c { datagram_len = n }) st) λ st.
      and_then (read (copy_to 14 c.iphdr (new_buffer (n + 14)))) λ buf.
        and_then (read (copy_to 16 (stored (htons n)) buf)) λ buf.
          and_then (copy_fragments fuel c.skb 34 buf st) λ buf.
            and_then (change_chain ipr_prev (λ p. record p { next = c.next }) st) λ st.
              and_then (free_reass fuel a st) λ st.
                and_then (read (copy_to 24 (stored 0) buf)) λ buf.
                  and_then (read (copy_to 20 (stored 0) buf)) λ buf.
                    and_then (read (iph_of (drop 14 buf))) λ h.
                      and_then (read (chksum (drop 14 buf) h.tot_len)) λ v.
                        and_then (read (copy_to 24 (stored v) buf)) λ buf.
                          let whole : SipSkbuff = record {
                            next = none;
                            buf = buf;
                            nh = 14;
                            tail = 34;
                          } in
                          ret (some b, record st { skbs = put b (some whole) st.skbs })

-- What malloc and skb_alloc give.
pub record Allocs : Type 0 where
  pub entry : Option ℕ
  pub buffer : Option ℕ

-- The part of sip_reassemble behind the choice of the entry, which there is none where malloc failed.
unfoldable pub add_fragment :
    ℕ
    → (buffer : Option ℕ) → (skb : ℕ) → SipIphdr
    → (ipr_prev ipr : Option ℕ) → Fragments
    → Run (Option ℕ × Fragments)
unfolding insert_fragment total_length
add_fragment fuel buffer skb frag ipr_prev none st = ret (none, st)
add_fragment fuel buffer skb frag ipr_prev (some a) st =
    and_then (change_chain (some a) (mark_last frag) st) λ st. and_then (read (st.chains a)) λ c.
      and_then (insert_fragment fuel a skb frag none c.skb st) λ st.
        and_then (read (st.chains a)) λ c. and_then (total_length fuel c.skb 0 st) λ sum.
          let whole = assemble fuel buffer ipr_prev a c st in
          if (sum + 20) % 2 ^ 32 == c.datagram_len then whole else ret (some skb, st)

-- The choice of the entry, by what was found, with what follows.
abbrev pub with_entry :
    ℕ
    → Allocs
    → (skb : ℕ) → SipIphdr
    → (ipr_prev ipr : Option ℕ) → Fragments
    → Run (Option ℕ × Fragments)
with_entry fuel given skb frag ipr_prev none st =
    and_then (new_reass given.entry skb st)
      λ r. add_fragment fuel given.buffer skb frag none r.0 r.1
with_entry fuel given skb frag ipr_prev (some a) st =
    and_then (old_reass a skb frag st)
      λ st. add_fragment fuel given.buffer skb frag ipr_prev (some a) st

-- sip_reassemble, at time `now`
unfoldable pub sip_reassemble :
    ℕ → (now : ℕ) → Allocs → (skb : ℕ) → Fragments → Run (Option ℕ × Fragments)
unfolding search_reass
sip_reassemble fuel now given skb st = and_then (header_at skb st) λ frag.
    and_then (search_reass fuel now frag st.ip_reass_list st.ip_reass_list st)
      λ found. with_entry fuel given skb frag found.0.ipr_prev found.0.ipr found.1
