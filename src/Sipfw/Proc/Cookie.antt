-- ===== src/Sipfw/Proc/Cookie.antt =====
-- SIPFW_ProcActionWrite: the text in cookie_pot after a write, and what the write sets.
use linux_program_practice.Sipfw.Types.{Conf}
use linux_program_practice.Sipfw.Proc.{Pot, copy_in, same_text, set_action, proc_action_write}
use linux_program_practice.Sipfw.ConfFile.{c_string, word_accept, word_drop}
use linux_program_practice.Base.{
  ℕ, zero, suc, ◌+◌, ◌-◌, ◌<◌, ◌≡◌, refl, sym, subst, false, some, List, [], ◌∷◌, ◌++◌, append-nil,
  append_assoc, arith, ◌==◌, length, drop, All, length-append, length-drop,
}
use linux_program_practice.Base.Int.{pos}

abbrev pub IsNonzero : ℕ → Type 0
IsNonzero b = (b == 0) ≡ false

abbrev pub zeros : ℕ → List ℕ
zeros zero = []
zeros (suc n) = 0 ∷ zeros n

-- The text after a write of `t` over the text `s`: what stood behind the bytes of `t` stays.
abbrev pub over : List ℕ → List ℕ → List ℕ
over t s = t ++ drop (length t) s

-- The buffer as it is from its clearing on: a text, and zeros behind it.
abbrev pub holding : List ℕ → ℕ → List ℕ
holding s n = s ++ zeros n

-- How many zeros a write leaves.
abbrev pub left : List ℕ → List ℕ → ℕ → ℕ
left t s n = length s + n - length (over t s)

drop_nil : (n : ℕ) → drop {A = ℕ} n [] ≡ []
drop_nil zero = refl
drop_nil (suc n) = refl

over_nil : (t : List ℕ) → over t [] ≡ t
over_nil t = rw (drop_nil (length t)) (append-nil t)

copy_in-over :
    (t s : List ℕ) (n : ℕ)
    → length t < length s + n
    → copy_in t (holding s n) ≡ some (holding (over t s) (left t s n))
unfolding copy_in
copy_in-over [] s n h = let same : length s + n - length s ≡ n = omega arith in rw same
copy_in-over (b ∷ t) [] zero h = absurd (omega arith)
copy_in-over (b ∷ t) [] (suc n) h =
    let same : 0 + suc n - suc (length t) ≡ 0 + n - length t = omega arith in
    rw (copy_in-over t [] n (omega arith)) (simp (over_nil t, append-nil, same))
copy_in-over (b ∷ t) (c ∷ s) n h =
    let same : suc (length s) + n - suc (length (over t s)) ≡ length s + n - length (over t s) =
      omega arith in
    rw (copy_in-over t s n (omega arith)) (rw same)

left_positive : (t s : List ℕ) (n : ℕ) → length t < length s + n → 0 < n → 0 < left t s n
left_positive t s n h z =
    omega (arith, length-append t (drop (length t) s), length-drop (length t) s)

c_string-holding : (s : List ℕ) (n : ℕ) → All IsNonzero s → 0 < n → c_string (holding s n) ≡ some s
unfolding c_string
c_string-holding [] zero a h = elim h [ ]
c_string-holding [] (suc n) a h = refl
c_string-holding (b ∷ s) n a h = rw (a.0, c_string-holding s n a.1 h)

over-All : (P : ℕ → Type 0) (t s : List ℕ) → All P t → All P s → All P (over t s)
over-All P [] s a c = c
over-All P (b ∷ t) [] a c = subst (All P) (sym (over_nil (b ∷ t))) a
over-All P (b ∷ t) (x ∷ s) a c = (a.0, over-All P t s a.1 c.1)

-- Where the buffer holds a text with at least one zero behind it, and the written bytes, none of them
-- zero, are fewer than the buffer has, a write to the file of the default action returns their number, leaves
-- in the buffer the written bytes over the text, and sets the action that the whole of that names.
pub proc_action_write-over :
    (t s : List ℕ) (n : ℕ) (cf : Conf)
    → All IsNonzero t
    → All IsNonzero s
    → length t < length s + n
    → 0 < n
    → proc_action_write (some t) (record { conf = cf; cookie = holding s n })
      ≡ some (
        pos (length t),
        record { conf = set_action (over t s) cf; cookie = holding (over t s) (left t s n) },
      )
unfolding proc_action_write
proc_action_write-over t s n cf a c h z = rw (
  copy_in-over t s n h,
  c_string-holding (over t s) (left t s n) (over-All IsNonzero t s a c) (left_positive t s n h z),
)

-- A text with a newline in it is neither name.
same_text_newline :
    (w rest word : List ℕ)
    → All (λ b. (b == b'\n') ≡ false) word
    → same_text (w ++ b'\n' ∷ rest) word ≡ false
unfolding same_text
same_text_newline [] rest [] a = refl
same_text_newline [] rest (x ∷ word) a = ground arith
same_text_newline (b ∷ w) rest [] a = refl
same_text_newline (b ∷ w) rest (x ∷ word) a = ground (arith, same_text_newline w rest word a.1)

set_action_newline : (w rest : List ℕ) (cf : Conf) → set_action (w ++ b'\n' ∷ rest) cf ≡ cf
set_action_newline w rest cf = rw (
  same_text_newline w rest word_accept (refl, (refl, (refl, (refl, (refl, (refl, tt)))))),
  same_text_newline w rest word_drop (refl, (refl, (refl, (refl, tt)))),
)

All-line : (w : List ℕ) → All IsNonzero w → All IsNonzero (w ++ b'\n' ∷ [])
All-line [] a = (refl, tt)
All-line (b ∷ w) a = (a.0, All-line w a.1)

-- Where the buffer holds a text with at least one zero behind it, a write of a line with its newline,
-- as echo does it, that leaves a byte of the buffer free returns and sets no action, whatever the
-- line is.
pub proc_action_write_newline :
    (w s : List ℕ) (n : ℕ) (cf : Conf)
    → All IsNonzero w
    → All IsNonzero s
    → length (w ++ b'\n' ∷ []) < length s + n
    → 0 < n
    → (p : Pot) × (proc_action_write
          (some (w ++ b'\n' ∷ []))
          (record { conf = cf; cookie = holding s n })
        ≡ some (pos (length (w ++ b'\n' ∷ [])), p))
      × (p.conf ≡ cf)
proc_action_write_newline w s n cf a c h z =
    let line = w ++ b'\n' ∷ [] in
    (
      record { conf = set_action (over line s) cf; cookie = holding (over line s) (left line s n) },
      proc_action_write-over line s n cf (All-line w a) c h z,
      rw (append_assoc w (b'\n' ∷ []) (drop (length line) s))
          (set_action_newline w (drop (length line) s) cf),
    )
