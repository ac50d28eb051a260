-- ===== src/Shttpd/Worker/Stop.antt =====
-- Stopping the server: a worker that marks itself idle after it was told to end.
use linux_program_practice.Base.{
  ℕ, ◌≤◌, ◌<◌, ◌≡◌, refl, true, false, arith, sym, ap, subst, ◌∙◌, ◌≢◌, inl, inr, ◌==◌, ==_iff,
  Bool-cases,
}
use linux_program_practice.Shttpd.Worker.{
  idel, Ctl, Pc, testing, trying, gone, Move, Slot, Sched, draining, firing, Plan, Pool, interrupt,
  fired_all, fire_calm, go_on, is_stopping, interrupt, is_stopping, Reach, Step, plan, stopped,
  work, later, update, start, stop, lock,
}

-- The rounds that Worker_ScheduleStop may still be in without having passed slot `i` as ended.
abbrev pub Before : Sched → ℕ → Type 0
Before (draining clean j) i = Unit
Before (firing false j) i = Unit
Before (firing true j) i = j ≤ i
Before c i = ⊥

abbrev pub Asleep : Pc → Type 0
Asleep testing = Unit
Asleep trying = Unit
Asleep gone = Unit
Asleep p = ⊥

-- The slot is marked idle, its mutex is locked, and its threads only try it.
pub record Sleeping (s : Slot) : Type 0 where
  pub idle : s.ctl.flags ≡ idel
  pub locked : s.ctl.free ≡ false
  pub asleep : (t : ℕ) → t < s.born → Asleep (s.pc t)

-- Worker_ScheduleStop waits for slot `i`, which sleeps.
pub record Stuck (n i : ℕ) (p : Pool) : Type 0 where
  pub below : i < n
  pub phase : Before p.sched i
  pub slot : Sleeping (p.slots i)

Before-stopping : (c : Sched) (i : ℕ) → Before c i → is_stopping c ≡ true
Before-stopping (draining clean j) i b = refl
Before-stopping (firing false j) i b = refl
Before-stopping (firing true j) i b = refl
Before-stopping c i b = absurd b

Plan-Before :
    {n k i : ℕ} {s s' : ℕ → Slot} {c c' : Sched}
    → Plan n k s c s' c'
    → i < n
    → Before c i
    → (s i).ctl.flags ≡ idel
    → Before c' i × (s' ≡ s)
Plan-Before (interrupt {c = d} g) lt b e = absurd (ground (arith, Before-stopping d _ b, g))
Plan-Before (fire_calm {fired = false} l a c) lt b e = (tt, refl)
Plan-Before {i} {s} (fire_calm {fired = true} {i = j} l a c) lt b e =
    let not_here : j ≢ i = λ q. c (ap (λ x. (s x).ctl.flags) q ∙ e) in (omega arith, refl)
Plan-Before (fired_all l) lt b e = absurd (omega arith)
Plan-Before pl lt b e = ground (arith, e)

Move-Asleep :
    {m m' : Ctl} {p q : Pc}
    → Move m p m' q
    → Asleep p
    → m.flags ≡ idel
    → m.free ≡ false
    → Asleep q × (m' ≡ m)
Move-Asleep (go_on g) a e f = (tt, refl)
Move-Asleep (stop g) a e f = absurd (ground (arith, g))
Move-Asleep (lock g) a e f = absurd (ground (arith, g))
Move-Asleep mv a e f = ground arith

Move-Sleeping :
    (s : Slot) (t : ℕ) (m : Ctl) (q : Pc)
    → Sleeping s
    → t < s.born
    → Move s.ctl (s.pc t) m q
    → Sleeping (record s { ctl = m; pc = update s.pc t q })
Move-Sleeping s t m q v lt mv =
    let (a, same) = Move-Asleep mv (v.asleep t lt) v.idle v.locked in
    record {
      idle = rw same v.idle;
      locked = rw same v.locked;
      asleep = λ u below. elim (Bool-cases (u == t)) [
        | inl this ↦ rw this a
        | inr other ↦ rw other (v.asleep u below)
      ];
    }

Stuck-Step : {n k i : ℕ} {p q : Pool} → Stuck n i p → Step n k p q → Stuck n i q
Stuck-Step {i} {p} v (plan {s} pl) =
    let (b, same) = Plan-Before pl v.below v.phase v.slot.idle in
    record {
      below = v.below;
      phase = b;
      slot = subst (λ (u : ℕ → Slot). Sleeping (u i)) (sym same) v.slot;
    }
Stuck-Step {i} {p} v (work j t {m} {q} lt mv) = record {
  below = v.below;
  phase = v.phase;
  slot = elim (Bool-cases (i == j)) [
    | inl this ↦
        let here : Sleeping (p.slots j) =
          subst (λ x. Sleeping (p.slots x)) ((==_iff i j).0 this) v.slot in
        rw this (Move-Sleeping (p.slots j) t m q here lt mv)
    | inr other ↦ rw other v.slot
  ];
}

Stuck-Reach : {n k i : ℕ} {p q : Pool} → Stuck n i p → Reach n k p q → Stuck n i q
Stuck-Reach v start = v
Stuck-Reach v (later r st) = Stuck-Step (Stuck-Reach v r) st

-- Where Worker_ScheduleStop waits for a slot that is marked idle although it was told to end, its
-- mutex locked and its threads only trying it: whatever the threads do, it never returns.
pub stop_waits_forever : {n k i : ℕ} {p q : Pool} → Stuck n i p → Reach n k p q → q.sched ≢ stopped
stop_waits_forever {i} v r e = subst (λ c. Before c i) e (Stuck-Reach v r).phase
