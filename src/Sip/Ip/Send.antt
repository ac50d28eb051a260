-- ===== src/Sip/Ip/Send.antt =====
-- What ip_output sends.
use linux_program_practice.Base.{
  ℕ, ◌<◌, ◌≡◌, sym, ap, subst, ◌∙◌, Bool, true, false, some, List, [], ◌∷◌, ◌++◌, append_assoc,
  arith, ltb, if◌then◌else◌, >>=-eq-some, length, take, drop, length-append, All-append,
  take-append, drop-append,
}
use linux_program_practice.Sip.Checksum.{chksum, stored}
use linux_program_practice.Sip.Checksum.Sums.{IsBytes, chksum-prefix}
use linux_program_practice.Sip.Checksum.Verify.{chksum-stored}
use linux_program_practice.Sip.Ip.{
  ip_fill, ip_output, Output, whole, too_long, put_check, iphdr_len, stored32,
}

abbrev pub bytes_of : Output → List ℕ
bytes_of (whole raw) = raw
bytes_of (too_long raw) = raw

-- A filled header: ten bytes, the checksum 0, and eight bytes of addresses.
record Filled (filled : List ℕ) : Type 0 where
  before : List ℕ
  addresses : List ℕ
  rest : List ℕ
  splits : filled ≡ before ++ 0 ∷ 0 ∷ (addresses ++ rest)
  ten : length before ≡ 10
  eight : length addresses ≡ 8
  bytes : IsBytes before
  address_bytes : IsBytes addresses

stored32-IsBytes : (w : ℕ) → IsBytes (stored32 w)
stored32-IsBytes w = (omega arith, (omega arith, (omega arith, (omega arith, tt))))

some_injective : {a b : List ℕ} → some a ≡ some b → a ≡ b
some_injective e = cc

module _ (src dest ttl tos proto : ℕ) (small : (ttl < 256) × (tos < 256) × (proto < 256)) where
  ip_fill-Filled :
      (raw filled : List ℕ)
      → IsBytes raw
      → ip_fill src dest ttl tos proto raw ≡ some filled
      → Filled filled
  unfolding ip_fill
  ip_fill-Filled
        (a ∷ b ∷ c ∷ d ∷ e ∷ f ∷ g ∷ h ∷ i ∷ j ∷ k ∷ l ∷ m ∷ n ∷ o ∷ p ∷ q ∷ r ∷ s ∷ t ∷ rest)
        filled (xa, (_, (xc, (xd, (xe, (xf, (xg, (xh, _)))))))) y =
      record {
        before = a ∷ tos ∷ c ∷ d ∷ e ∷ f ∷ g ∷ h ∷ ttl ∷ proto ∷ [];
        addresses = stored32 src ++ stored32 dest;
        rest = rest;
        splits = some_injective (sym y);
        ten = omega arith;
        eight = omega arith;
        bytes = (xa, (small.1, (xc, (xd, (xe, (xf, (xg, (xh, (small.0, (small.2, tt))))))))));
        address_bytes =
            All-append (λ v. v < 256) (stored32 src) (stored32 dest) (stored32-IsBytes src)
              (stored32-IsBytes dest);
      }
  ip_fill-Filled raw filled x y = cc

-- The header of a filled datagram with its checksum is accepted, and the checksum is the only change.
module _ (filled : List ℕ) (f : Filled filled) where
  open f use {before, addresses, rest, splits, ten, eight, bytes, address_bytes}

  abbrev header : List ℕ
  header = before ++ 0 ∷ 0 ∷ addresses

  header_length : length header ≡ 20
  header_length = omega (arith, ten, eight, length-append before (0 ∷ 0 ∷ addresses))

  put_check_lem : (v : ℕ) → put_check v filled ≡ (before ++ (stored v ++ addresses)) ++ rest
  put_check_lem v =
      let front : take 10 filled ≡ before =
        rw splits (take-append 10 before (0 ∷ 0 ∷ (addresses ++ rest)) ten) in
      let regrouped : filled ≡ (before ++ 0 ∷ 0 ∷ []) ++ (addresses ++ rest) =
        splits ∙ sym (append_assoc before (0 ∷ 0 ∷ []) (addresses ++ rest)) in
      let back : drop 12 filled ≡ addresses ++ rest = rw regrouped (
        drop-append 12 (before ++ 0 ∷ 0 ∷ []) (addresses ++ rest)
          (omega (arith, ten, length-append before (0 ∷ 0 ∷ [])))) in
      rw (front, back) (sym (append_assoc before (stored v ++ addresses) rest))

  filled_lem : filled ≡ header ++ rest
  filled_lem = splits ∙ sym (append_assoc before (0 ∷ 0 ∷ addresses) rest)

  -- A prefix of 20 bytes is what the checksum of the header reads.
  header_only :
      (xs : List ℕ) → length xs ≡ 20 → chksum (xs ++ rest) iphdr_len ≡ chksum xs (length xs)
  header_only xs e =
      subst (λ n. chksum (xs ++ rest) n ≡ chksum xs (length xs)) e (chksum-prefix xs rest)

  Filled-accepted :
      (v : ℕ) → chksum filled iphdr_len ≡ some v → chksum (put_check v filled) iphdr_len ≡ some 0
  Filled-accepted v e =
      let sent_length : length (before ++ (stored v ++ addresses)) ≡ 20 =
        omega (arith, ten, eight, length-append before (stored v ++ addresses)) in
      let before_sum : chksum header (length header) ≡ some v =
        sym (header_only header header_length)
        ∙ ap (λ x. chksum x iphdr_len) (sym filled_lem)
        ∙ e in
      ap (λ x. chksum x iphdr_len) (put_check_lem v)
      ∙ header_only (before ++ (stored v ++ addresses)) sent_length
      ∙ chksum-stored 5 before addresses v (omega (arith, ten)) bytes address_bytes
          (omega (arith, header_length)) before_sum

-- The header of what ip_output sends has a correct checksum, whatever was in the header before, for
-- a time to live, a type of service and a protocol of one byte each.
pub ip_output-accepted :
    (mtu n src dest ttl tos proto : ℕ) (raw : List ℕ) (o : Output)
    → (ttl < 256) × (tos < 256) × (proto < 256)
    → IsBytes raw
    → ip_output mtu n src dest ttl tos proto raw ≡ some o
    → chksum (bytes_of o) iphdr_len ≡ some 0
unfolding ip_output
ip_output-accepted mtu n src dest ttl tos proto raw o small all e =
    let (filled, f, e1) = >>=-eq-some (ip_fill src dest ttl tos proto raw) _ e in
    let (v, c, e2) = >>=-eq-some (chksum filled iphdr_len) _ e1 in
    let good = ip_fill-Filled src dest ttl tos proto small raw filled all f in
    same_bytes (ltb mtu n) v filled o (some_output e2) (Filled-accepted filled good v c)
  where
    some_output : {a b : Output} → some a ≡ some b → a ≡ b
    some_output q = cc

    same_bytes :
        (b : Bool) (v : ℕ) (filled : List ℕ) (o : Output)
        → (if b then too_long (put_check v filled) else whole (put_check v filled)) ≡ o
        → chksum (put_check v filled) iphdr_len ≡ some 0
        → chksum (bytes_of o) iphdr_len ≡ some 0
    same_bytes true v filled o is h = subst (λ x. chksum (bytes_of x) iphdr_len ≡ some 0) is h
    same_bytes false v filled o is h = subst (λ x. chksum (bytes_of x) iphdr_len ≡ some 0) is h
