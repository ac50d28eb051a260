-- ===== src/Sipfw/Loading.antt =====
-- LinuxCode/20/sipfw/module: what is acquired when the module is loaded and released when it is
-- unloaded: SIPFW_Init and SIPFW_Exit (sipfw_k.c), SIPFW_NLCreate and SIPFW_NLDestory
-- (sipfw_k_nl.c), SIPFW_Proc_Init and SIPFW_Proc_CleanUp (sipfw_k_proc.c). To release what is not
-- held is a fault for the socket and for the memory; to remove a proc entry that is not there is not.
pub mod Cleanup
use linux_program_practice.Base.{
  ℕ, Bool, true, false, not, ◌&&◌, ◌||◌, Option, none, some, List, [], ◌∷◌, if◌then◌else◌, ◌>>=◌,
  zero, suc, ◌+◌, ◌-◌, ◌*◌, ◌/◌, ◌%◌, ◌^◌, ◌≤◌, ◌<◌, min, ◌≡◌, refl, sym, ap, subst, ◌∙◌, ◌≢◌, ◌↔◌,
  ◌⊎◌, inl, inr, ◌++◌, map, append-nil, append_assoc, arith, ltb, leb, ◌==◌, ltb→lt, lt→ltb, leb→le,
  ==_iff, &&_iff, Bool-cases, Option-cases, >>=-eq-some, length, get_elem?, set, take, drop, All,
  length-append, length-set, get_elem?-set_self, get_elem?-set_ne, All-set, All-get,
  take-append-drop, length-take, length-drop, codes, get_elem?-append, set-append,
}
use linux_program_practice.Base.Int.{ℤ, pos, negsuc, eqb_ℤ}
use linux_program_practice.Sipfw.Types.{Conf}
use linux_program_practice.Sipfw.Tables.{Store, list_destroy}
use linux_program_practice.Sipfw.ConfFile.{handle_conf}

-- What the module holds. `nlfd` is whether the pointer of that name is set, and `socket` whether the
-- socket is open; `cookie` whether the memory at cookie_pot is allocated.
pub record Holdings : Type 0 where
  pub conf : Conf
  pub store : Store
  pub nlfd : Bool
  pub socket : Bool
  pub cookie : Bool
  pub directory : Bool
  pub information : Bool
  pub defaultaction : Bool
  pub logpause : Bool
  pub invalid : Bool
  pub hooks : Bool

-- What the kernel gives while the module is loaded: the configuration file if it opens, the bytes of
-- the buffer for its lines, whether a socket, the memory and each entry are made, and what
-- nf_register_hooks returns.
pub record Kernel : Type 0 where
  pub content : Option (List ℕ)
  pub line_buf : List ℕ
  pub makes_socket : Bool
  pub makes_cookie : Bool
  pub makes_directory : Bool
  pub makes_information : Bool
  pub makes_defaultaction : Bool
  pub makes_logpause : Bool
  pub makes_invalid : Bool
  pub registers : ℤ

-- -ENOMEM
abbrev pub enomem : ℤ
enomem = negsuc 11

-- SIPFW_NLCreate
abbrev pub nl_create : Kernel → Holdings → ℤ × Holdings
nl_create k h = (
  if k.makes_socket then pos 0 else negsuc 0,
  record h { nlfd = k.makes_socket; socket = k.makes_socket },
)

-- SIPFW_NLDestory
abbrev pub nl_destory : Holdings → Option Holdings
nl_destory h =
    if h.nlfd then (if h.socket then some (record h { socket = false }) else none) else some h

abbrev pub vfree : Holdings → Option Holdings
vfree h = if h.cookie then some (record h { cookie = false }) else none

abbrev pub has_entries : Kernel → Bool
has_entries k = k.makes_information && k.makes_defaultaction && k.makes_logpause && k.makes_invalid

-- SIPFW_Proc_Init
unfoldable pub proc_init : Kernel → Holdings → Option (ℤ × Holdings)
proc_init k h = if not k.makes_cookie then some (enomem, record h { cookie = false }) else (do
  let made = record h {
    cookie = true;
    directory = k.makes_directory;
    information = k.makes_information;
    defaultaction = k.makes_defaultaction;
    logpause = k.makes_logpause;
    invalid = k.makes_invalid;
  }
  (if has_entries k then some (pos 0, made) else (do freed ← vfree made; some (enomem, freed))))

-- SIPFW_Proc_CleanUp
unfoldable pub proc_clean_up : Holdings → Option Holdings
proc_clean_up h = vfree (record h {
  directory = false;
  information = false;
  defaultaction = false;
  logpause = false;
  invalid = false;
})

-- SIPFW_Init from the label error2 on, and from error3 on.
abbrev pub error2 : ℤ → Holdings → Option (ℤ × Holdings)
error2 ret h = do released ← nl_destory h; some (ret, released)

abbrev pub error3 : ℤ → Holdings → Option (ℤ × Holdings)
error3 ret h = do cleaned ← proc_clean_up h; error2 ret cleaned

-- SIPFW_Init
unfoldable pub sipfw_init : Kernel → Holdings → Option (ℤ × Holdings)
unfolding proc_init proc_clean_up
sipfw_init k h = do
  cf ← handle_conf k.content k.line_buf h.conf
  let created = nl_create k (record h { conf = cf })
  (if not (eqb_ℤ created.0 (pos 0)) then some created else (do
    made ← proc_init k created.1
    (if not (eqb_ℤ made.0 (pos 0))
        then error2 made.0 made.1
        else if not (eqb_ℤ k.registers (pos 0))
        then error3 k.registers made.1
        else some (pos 0, record made.1 { hooks = true }))))

-- SIPFW_Exit
unfoldable pub sipfw_exit : Holdings → Option Holdings
unfolding proc_clean_up
sipfw_exit h = do
  released ← nl_destory h
  emptied ← list_destroy released.store
  cleaned ← proc_clean_up (record released { store = emptied })
  some (record cleaned { hooks = false })
