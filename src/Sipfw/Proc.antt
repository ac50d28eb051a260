-- ===== src/Sipfw/Proc.antt =====
-- LinuxCode/20/sipfw/module/sipfw_k_proc.c: the handlers of the files under /proc/net/sipfw. What
-- the user writes is copied over the start of one buffer, cookie_pot, which all the files share and
-- which is cleared only when the module is loaded. `scan_int` is the kernel's sscanf with "%d\n": the
-- number that a text starts with, and none if it starts with no number. A page that sprintf fills is
-- the record of the values that it is given.
pub mod Cookie
use mathlib.Core.Option
use Prim.Native.String.{String}
use linux_program_practice.Base.{
  ℕ, ◌+◌, Bool, true, false, not, ◌&&◌, Option, none, some, List, [], ◌∷◌, ltb, ◌==◌, if◌then◌else◌,
  ◌>>=◌, length, get_elem?, zero, suc, ◌-◌, ◌*◌, ◌/◌, ◌%◌, ◌^◌, ◌≤◌, ◌<◌, min, ◌≡◌, refl, sym, ap,
  subst, ◌∙◌, ◌≢◌, ◌↔◌, ◌⊎◌, inl, inr, ◌||◌, ◌++◌, map, append-nil, append_assoc, arith, leb,
  ltb→lt, lt→ltb, leb→le, ==_iff, &&_iff, Bool-cases, Option-cases, >>=-eq-some, set, take, drop,
  All, length-append, length-set, get_elem?-set_self, get_elem?-set_ne, All-set, All-get,
  take-append-drop, length-take, length-drop, codes, get_elem?-append, set-append,
}
use linux_program_practice.Base.Int.{ℤ, pos, negsuc, pos_part, neg_part, sub_ℕ, eqb_ℤ}
use linux_program_practice.Sipfw.Types.{
  Conf, RuleList, sipfw_action_name, action_accept, action_drop,
}
use linux_program_practice.Sipfw.ConfFile.{c_string, word_accept, word_drop}

-- What a read handler gives: `*eof = 1` and no byte, or the page.
pub data Page {ℓ} (A : Type ℓ) : Type ℓ where
  at_end : Page A
  page : A → Page A

pub record Information : Type 0 where
  pub default_action : Option String
  pub rules_file : List ℕ
  pub log_file : List ℕ
  pub rules_number : ℤ
  pub hit_number : ℕ
  pub fire_wall : String

abbrev pub add_ℤ : ℤ → ℤ → ℤ
add_ℤ a b = sub_ℕ (pos_part a + pos_part b) (neg_part a + neg_part b)

-- SIPFW_ProcInfoRead. A default action without a name reads outside the table of names.
pub proc_info_read : ℕ → Conf → List RuleList → Option (Page Information)
proc_info_read offset cf tables = if ltb 0 offset then some at_end else (do
  name ← get_elem? sipfw_action_name cf.default_action
  l ← get_elem? tables 0
  m ← get_elem? tables 1
  n ← get_elem? tables 2
  some (
      page (record {
        default_action = name;
        rules_file = cf.rule_file_path;
        log_file = cf.log_file_path;
        rules_number = add_ℤ (add_ℤ l.number m.number) n.number;
        hit_number = cf.hit_number;
        fire_wall = if eqb_ℤ cf.invalid (pos 0) then "VALID" else "INVALID";
      })))

-- SIPFW_ProcLogRead
pub proc_log_read : ℕ → Conf → Page ℤ
proc_log_read offset cf = if ltb 0 offset then at_end else page cf.log_pause

-- SIPFW_ProcActionRead
pub proc_action_read : ℕ → Conf → Option (Page (Option String))
proc_action_read offset cf =
    if ltb 0 offset
    then some at_end
    else (do name ← get_elem? sipfw_action_name cf.default_action; some (page name))

-- SIPFW_ProcInvalidRead
pub proc_invalid_read : ℕ → Conf → Page ℤ
proc_invalid_read offset cf = if ltb 0 offset then at_end else page cf.invalid

-- What a write handler changes: cf and the buffer.
pub record Pot : Type 0 where
  pub conf : Conf
  pub cookie : List ℕ

-- -EFAULT
abbrev pub efault : ℤ
efault = negsuc 13

-- copy_from_user(cookie_pot, buff, len): a fault where the bytes do not fit.
pub copy_in : List ℕ → List ℕ → Option (List ℕ)
copy_in [] cookie = some cookie
copy_in (b ∷ bs) [] = none
copy_in (b ∷ bs) (c ∷ cs) = Option.map (λ out. b ∷ out) (copy_in bs cs)

-- !strcmp(s, t)
pub same_text : List ℕ → List ℕ → Bool
same_text [] [] = true
same_text [] (t ∷ ts) = false
same_text (s ∷ ss) [] = false
same_text (s ∷ ss) (t ∷ ts) = s == t && same_text ss ts

abbrev pub set_action : List ℕ → Conf → Conf
set_action s cf =
    if same_text s word_accept
    then record cf { default_action = action_accept }
    else if same_text s word_drop
    then record cf { default_action = action_drop }
    else cf

-- SIPFW_ProcActionWrite: `none` for the bytes is a user buffer that cannot be read.
unfoldable pub proc_action_write : Option (List ℕ) → Pot → Option (ℤ × Pot)
unfolding copy_in same_text
proc_action_write none p = some (efault, p)
proc_action_write (some buff) p = do
  cookie ← copy_in buff p.cookie
  s ← c_string cookie
  some (pos (length buff), record { conf = set_action s p.conf; cookie = cookie })

module _ (scan_int : List ℕ → Option ℤ) where
  -- sscanf leaves its target alone where the text starts with no number.
  abbrev pub scanned : List ℕ → ℤ → ℤ
  scanned s old = elim (scan_int s) [ none ↦ old | some v ↦ v ]

  -- SIPFW_ProcLogWrite
  unfoldable pub proc_log_write : Option (List ℕ) → Pot → Option (ℤ × Pot)
  unfolding copy_in
  proc_log_write none p = some (efault, p)
  proc_log_write (some buff) p = do
    cookie ← copy_in buff p.cookie
    s ← c_string cookie
    some (
      pos (length buff),
      record { conf = record p.conf { log_pause = scanned s p.conf.log_pause }; cookie = cookie },
    )

  -- SIPFW_ProcInvalidWrite
  unfoldable pub proc_invalid_write : Option (List ℕ) → Pot → Option (ℤ × Pot)
  unfolding copy_in
  proc_invalid_write none p = some (efault, p)
  proc_invalid_write (some buff) p = do
    cookie ← copy_in buff p.cookie
    s ← c_string cookie
    some (
      pos (length buff),
      record { conf = record p.conf { invalid = scanned s p.conf.invalid }; cookie = cookie },
    )
