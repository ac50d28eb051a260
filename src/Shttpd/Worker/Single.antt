-- ===== src/Shttpd/Worker/Single.antt =====
-- No slot has two threads that run `worker` at a time.
use linux_program_practice.Base.{
  ℕ, ◌≤◌, ◌<◌, ◌≡◌, ◌≢◌, none, some, arith, refl, sym, subst, ◌∙◌, inl, inr, ◌==◌, ==_iff,
  Bool-cases,
}
use linux_program_practice.Shttpd.Worker.{
  detached, gone, Slot, Sched, init, adding, creating, launching, joining, Plan, Pool, hit_detached,
  join, launch, create, add, add_running, Ctl, Pc, Move, update, detach, unlock_init, Reach, Step,
  plan, later, work, start, fresh_pool,
}

abbrev pub Empty : Slot → Type 0
Empty s = (t : ℕ) → t < s.born → s.pc t ≡ gone

-- Where the scheduler relies on it that the slot has no thread.
abbrev pub Bare : Sched → ℕ → Type 0
Bare (init j) i = j ≤ i
Bare (adding none j) i = j ≤ i
Bare (adding (some sc) j) i = i ≡ j
Bare (creating none j) i = j ≤ i
Bare (creating (some sc) j) i = i ≡ j
Bare (launching none j) i = j ≤ i
Bare (launching (some sc) j) i = i ≡ j
Bare (joining none j t) i = j < i
Bare c i = ⊥

abbrev pub Launching : Sched → ℕ → Type 0
Launching (launching back j) i = i ≡ j
Launching c i = ⊥

pub record SlotInv (c : Sched) (i : ℕ) (s : Slot) : Type 0 where
  pub single : (t u : ℕ) → t < s.born → u < s.born → s.pc t ≢ gone → s.pc u ≢ gone → t ≡ u
  pub quiet : s.ctl.flags ≡ detached → Empty s
  pub bare : Bare c i → Empty s
  pub made : Launching c i → s.ctl.flags ≢ detached

abbrev pub Inv : Pool → Type 0
Inv p = (i : ℕ) → SlotInv p.sched i (p.slots i)

-- The two fields at one thread.
no_thread_detached :
    {c : Sched} {i : ℕ} {s : Slot}
    → SlotInv c i s
    → (t : ℕ) → s.ctl.flags ≡ detached
    → t < s.born
    → s.pc t ≡ gone
no_thread_detached v t d = v.quiet d t

no_thread_awaited :
    {c : Sched} {i : ℕ} {s : Slot} → SlotInv c i s → (t : ℕ) → Bare c i → t < s.born → s.pc t ≡ gone
no_thread_awaited v t b = v.bare b t

module _ {n k : ℕ} {s : ℕ → Slot} (i : ℕ) where
  Plan-single :
      {c : Sched} {s' : ℕ → Slot} {c' : Sched}
      → SlotInv c i (s i)
      → Plan n k s c s' c'
      → (t u : ℕ) → t < (s' i).born
      → u < (s' i).born
      → (s' i).pc t ≢ gone
      → (s' i).pc u ≢ gone
      → t ≡ u
  Plan-single v (launch {back = none} {i = j}) t u a b x y =
      ground (arith, v.single t u, no_thread_awaited v t, no_thread_awaited v u)
  Plan-single v (launch {back = some sc} {i = j}) t u a b x y =
      ground (arith, v.single t u, no_thread_awaited v t, no_thread_awaited v u)
  Plan-single v pl t u a b x y = ground (arith, v.single t u)

  Plan-quiet :
      {c : Sched} {s' : ℕ → Slot} {c' : Sched}
      → SlotInv c i (s i)
      → Plan n k s c s' c'
      → (s' i).ctl.flags ≡ detached
      → Empty (s' i)
  Plan-quiet v launch e t a = ground (arith, no_thread_detached v t, v.made)
  Plan-quiet v pl e t a = ground (arith, no_thread_detached v t)

  Plan-bare :
      {c : Sched} {s' : ℕ → Slot} {c' : Sched}
      → SlotInv c i (s i)
      → Plan n k s c s' c'
      → Bare c' i
      → Empty (s' i)
  Plan-bare v (hit_detached lt d) e t a = ground (arith, no_thread_detached v t)
  Plan-bare v (join {back = none} g) e t a = ground (arith, no_thread_awaited v t)
  Plan-bare v (join {back = some sc} g) e t a = ground (arith, no_thread_awaited v t)
  Plan-bare v (add_running {back = none} g) e t a = ground (arith, no_thread_awaited v t)
  Plan-bare v (add_running {back = some sc} g) e t a = ground (arith, no_thread_awaited v t)
  Plan-bare v (add {back = none} g) e t a = ground (arith, no_thread_awaited v t)
  Plan-bare v (add {back = some sc} g) e t a = ground (arith, no_thread_awaited v t)
  Plan-bare v (create {back = none}) e t a = ground (arith, no_thread_awaited v t)
  Plan-bare v (create {back = some sc}) e t a = ground (arith, no_thread_awaited v t)
  Plan-bare v (launch {back = none}) e t a = ground (arith, no_thread_awaited v t)
  Plan-bare v (launch {back = some sc}) e t a = ground (arith, no_thread_awaited v t)
  Plan-bare v pl e t a = ground (arith, no_thread_awaited v t)

  Plan-made :
      {c : Sched} {s' : ℕ → Slot} {c' : Sched}
      → SlotInv c i (s i)
      → Plan n k s c s' c'
      → Launching c' i
      → (s' i).ctl.flags ≢ detached
  Plan-made v create e = ground (arith, v.made)
  Plan-made v pl e = ground (arith, v.made)

  Plan-SlotInv :
      {c : Sched} {s' : ℕ → Slot} {c' : Sched}
      → SlotInv c i (s i)
      → Plan n k s c s' c'
      → SlotInv c' i (s' i)
  Plan-SlotInv v pl = record {
    single = Plan-single v pl;
    quiet = Plan-quiet v pl;
    bare = Plan-bare v pl;
    made = Plan-made v pl;
  }

-- A thread that moves is not gone, and no other thread of its slot is live.
unfoldable pub moved : Slot → ℕ → Ctl → Pc → Slot
moved s t m q = record s { ctl = m; pc = update s.pc t q }

pub Move-live : {m m' : Ctl} {p q : Pc} → Move m p m' q → p ≢ gone
Move-live unlock_init e = ground arith
Move-live mv e = ground arith

Launching→Bare : (c : Sched) (i : ℕ) → Launching c i → Bare c i
Launching→Bare (launching none j) i e = omega arith
Launching→Bare (launching (some sc) j) i e = e
Launching→Bare c i e = ground arith

module _ {c : Sched} {i : ℕ} {s : Slot} (v : SlotInv c i s) (t : ℕ) (exists : t < s.born) where
  Move-quiet :
      {m : Ctl} {p q : Pc}
      → Move s.ctl p m q
      → s.pc t ≡ p
      → m.flags ≡ detached
      → Empty (moved s t m q)
  unfolding moved
  Move-quiet detach at e u a = ground (arith, v.single t u)
  Move-quiet mv at e u a = ground (arith, no_thread_detached v t, no_thread_detached v u)

  moved-only :
      (m : Ctl) (q : Pc)
      → s.pc t ≢ gone
      → (a : ℕ) → a < s.born
      → (moved s t m q).pc a ≢ gone
      → a ≡ t
  unfolding moved
  moved-only m q live a x p = ground (arith, v.single a t, live)

  Move-SlotInv : {m : Ctl} {q : Pc} → Move s.ctl (s.pc t) m q → SlotInv c i (moved s t m q)
  unfolding moved
  Move-SlotInv {m} {q} mv = record {
    single = λ a b x y h k.
        moved-only m q (Move-live mv) a x h ∙ sym (moved-only m q (Move-live mv) b y k);
    quiet = Move-quiet mv refl;
    bare = λ b u a. absurd (Move-live mv (v.bare b t exists));
    made = λ l e. absurd (Move-live mv (v.bare (Launching→Bare c i l) t exists));
  }

pub Step-Inv : {n k : ℕ} {p q : Pool} → Inv p → Step n k p q → Inv q
unfolding moved
Step-Inv inv (plan pl) i = Plan-SlotInv i (inv i) pl
Step-Inv {p} inv (work j t {m} {q} lt mv) i = elim (Bool-cases (i == j)) [
  | inl this ↦ rw this (
      subst (λ x. SlotInv p.sched x (moved (p.slots j) t m q)) (sym ((==_iff i j).0 this))
        (Move-SlotInv (inv j) t lt mv))
  | inr other ↦ rw other (inv i)
]

pub Reach-Inv : {n k : ℕ} {p : Pool} → Reach n k fresh_pool p → Inv p
Reach-Inv start = λ i. record {
  single = λ t u a b x y. absurd (omega arith);
  quiet = λ e t a. refl;
  bare = λ b t a. refl;
  made = λ l. absurd l;
}
Reach-Inv (later r st) = Step-Inv (Reach-Inv r) st

-- In every state that the pool can reach, by whatever interleaving, at most one thread runs for a
-- slot, and none for a slot whose flags are WORKER_DETACHED.
pub single_worker :
    {n k : ℕ} {p : Pool}
    → Reach n k fresh_pool p
    → (i : ℕ)
    → ((t u : ℕ)
        → t < (p.slots i).born
        → u < (p.slots i).born
        → (p.slots i).pc t ≢ gone
        → (p.slots i).pc u ≢ gone
        → t ≡ u)
      × ((p.slots i).ctl.flags ≡ detached
          → (t : ℕ) → t < (p.slots i).born
          → (p.slots i).pc t ≡ gone)
single_worker r i = ((Reach-Inv r i).single, (Reach-Inv r i).quiet)
