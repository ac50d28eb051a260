-- ===== src/Sipfw/Loading/Cleanup.antt =====
-- SIPFW_Init and SIPFW_Exit: what loading and unloading leave behind.
use linux_program_practice.Base.{
  ◌≡◌, refl, ◌≢◌, ◌⊎◌, inl, inr, Bool, true, false, not, ◌&&◌, none, some, [], ◌∷◌, ◌++◌, arith,
  Bool-cases,
}
use linux_program_practice.Sipfw.Loading.{
  Holdings, Kernel, has_entries, sipfw_init, sipfw_exit, enomem, proc_clean_up,
}
use linux_program_practice.Sipfw.Types.{Conf, RuleList}
use linux_program_practice.Sipfw.Memory.{Live, Owned}
use linux_program_practice.Sipfw.Tables.{Store}
use linux_program_practice.Sipfw.Tables.Flush.{list_destroy-leaks, empty_tables, last_of, LeaksLast}
use linux_program_practice.Sipfw.ConfFile.{handle_conf}
use linux_program_practice.Base.Int.{ℤ, pos, negsuc, eqb_ℤ}

-- A module that holds nothing.
abbrev pub unloaded : Conf → Store → Holdings
unloaded cf s = record {
  conf = cf;
  store = s;
  nlfd = false;
  socket = false;
  cookie = false;
  directory = false;
  information = false;
  defaultaction = false;
  logpause = false;
  invalid = false;
  hooks = false;
}

-- A module that holds all that it needs.
pub record Loaded (h : Holdings) : Type 0 where
  pub nlfd : h.nlfd ≡ true
  pub socket : h.socket ≡ true
  pub cookie : h.cookie ≡ true
  pub information : h.information ≡ true
  pub defaultaction : h.defaultaction ≡ true
  pub logpause : h.logpause ≡ true
  pub invalid : h.invalid ≡ true
  pub hooks : h.hooks ≡ true

-- The proc entries that are left of a module that was not loaded: those made, where the socket and
-- the memory were made but not all the entries.
abbrev pub leftover : Kernel → Bool
leftover k = k.makes_socket && k.makes_cookie && not (has_entries k)

-- A module that was not loaded holds no socket, no memory and no hooks.
pub record Refused (k : Kernel) (h : Holdings) : Type 0 where
  pub socket : h.socket ≡ false
  pub cookie : h.cookie ≡ false
  pub hooks : h.hooks ≡ false
  pub information : h.information ≡ (leftover k && k.makes_information)
  pub defaultaction : h.defaultaction ≡ (leftover k && k.makes_defaultaction)
  pub logpause : h.logpause ≡ (leftover k && k.makes_logpause)
  pub invalid : h.invalid ≡ (leftover k && k.makes_invalid)

abbrev pub Settled : Kernel → ℤ × Holdings → Type 0
Settled k (ret, h) = ((ret ≡ pos 0) × Loaded h) ⊎ ((ret ≢ pos 0) × Refused k h)

-- Without entries left, all of the fields are false.
clean-Refused :
    (k : Kernel) (cf : Conf) (s : Store) (nlfd : Bool)
    → leftover k ≡ false
    → Refused k (record (unloaded cf s) { nlfd = nlfd })
clean-Refused k cf s nlfd none_left = record {
  socket = refl;
  cookie = refl;
  hooks = refl;
  information = rw none_left;
  defaultaction = rw none_left;
  logpause = rw none_left;
  invalid = rw none_left;
}

-- Where the configuration file is read without a fault, loading a module that holds nothing returns:
-- either 0 with everything held, or another number with the socket, the memory and the hooks
-- released. The tables stay as they were.
pub sipfw_init-Settled :
    (k : Kernel) (cf read : Conf) (s : Store)
    → handle_conf k.content k.line_buf cf ≡ some read
    → (r : ℤ × Holdings) × (sipfw_init k (unloaded cf s) ≡ some r) × Settled k r × (r.1.store ≡ s)
unfolding sipfw_init
sipfw_init-Settled k cf read s e = elim (Bool-cases k.makes_socket) [
  | inr fails ↦ (
    (negsuc 0, unloaded read s),
    rw e (rw fails),
    inr (ground arith, clean-Refused k read s false (ground arith)),
    refl,
  )
  | inl socket ↦ elim (Bool-cases k.makes_cookie) [
    | inr fails ↦ (
      (enomem, record (unloaded read s) { nlfd = true }),
      rw e (rw (socket, fails)),
      inr (ground arith, clean-Refused k read s true (ground arith)),
      refl,
    )
    | inl cookie ↦ elim (Bool-cases (has_entries k)) [
      | inr fails ↦
          let left : leftover k ≡ true = ground arith in
          (
            (
              enomem,
              record (unloaded read s) {
                nlfd = true;
                directory = k.makes_directory;
                information = k.makes_information;
                defaultaction = k.makes_defaultaction;
                logpause = k.makes_logpause;
                invalid = k.makes_invalid;
              },
            ),
            rw e (rw (socket, cookie, fails)),
            inr (
              ground arith,
              record {
                socket = refl;
                cookie = refl;
                hooks = refl;
                information = rw left;
                defaultaction = rw left;
                logpause = rw left;
                invalid = rw left;
              },
            ),
            refl,
          )
      | inl all ↦ elim (Bool-cases (eqb_ℤ k.registers (pos 0))) [
        | inr other ↦ (
          (k.registers, record (unloaded read s) { nlfd = true }),
          rw e (rw (socket, cookie, all, other)),
          inr (ground arith, clean-Refused k read s true (ground arith)),
          refl,
        )
        | inl registered ↦ (
          (
            pos 0,
            record (unloaded read s) {
              nlfd = true;
              socket = true;
              cookie = true;
              directory = k.makes_directory;
              information = k.makes_information;
              defaultaction = k.makes_defaultaction;
              logpause = k.makes_logpause;
              invalid = k.makes_invalid;
              hooks = true;
            },
          ),
          rw e (rw (socket, cookie, all, registered)),
          inl (
            refl,
            record {
              nlfd = refl;
              socket = refl;
              cookie = refl;
              information = ground arith;
              defaultaction = ground arith;
              logpause = ground arith;
              invalid = ground arith;
              hooks = refl;
            },
          ),
          refl,
        )
      ]
    ]
  ]
]

-- Unloading a loaded module whose three chains own their nodes returns: it closes the socket, empties
-- the tables, removes the entries, frees the memory and unregisters the hooks, and of the nodes of
-- the tables it leaves the last one allocated.
pub sipfw_exit-Loaded :
    (h : Holdings) (l m n : RuleList)
    → Loaded h
    → h.store.tables ≡ l ∷ m ∷ n ∷ []
    → Owned h.store.tables h.store.live
    → (later : Live) × (sipfw_exit h
        ≡ some (record (unloaded h.conf (record { tables = empty_tables; live = later })) {
          nlfd = true;
        }))
      × LeaksLast h.store.tables h.store.live later (last_of none (l.rules ++ m.rules ++ n.rules))
unfolding sipfw_exit proc_clean_up
sipfw_exit-Loaded h l m n loaded e owned =
    let (later, destroyed, leaks) = list_destroy-leaks h.store l m n e owned in
    (later, rw (loaded.nlfd, loaded.socket) (rw destroyed (rw loaded.cookie)), leaks)
