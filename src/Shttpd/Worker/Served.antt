-- ===== src/Shttpd/Worker/Served.antt =====
-- A worker that is woken comes to serve.
use linux_program_practice.Base.{
  ℕ, suc, ◌+◌, ◌≤◌, ◌<◌, ◌≡◌, ◌≢◌, ◌⊎◌, refl, sym, subst, inl, inr, Bool, true, false, arith, ◌==◌,
  ==_iff, Bool-cases, none, some,
}
use linux_program_practice.Shttpd.Worker.{
  detaching, gone, testing, trying, taken, starting, serving, Slot, Sched, Plan, Pool, Ctl, Pc,
  Move, update, plan, work, Reach, fresh_pool, is_stopping, create, launch, delete, go_on, give,
  lock, open_lock, stop, busy, run, begin,
}
use linux_program_practice.Shttpd.Worker.Single.{
  Inv, SlotInv, Step-Inv, Reach-Inv, moved, Bare, Move-live,
}

-- The steps that a thread has left before it serves, with the mutex open where it needs it.
abbrev pub Stage : Bool → Pc → ℕ → Type 0
Stage free testing left = (free ≡ true) × (left ≡ 4)
Stage free trying left = (free ≡ true) × (left ≡ 3)
Stage free taken left = left ≡ 2
Stage free starting left = left ≡ 1
Stage free p left = ⊥

abbrev pub Serves : Pc → Type 0
Serves (serving fd) = Unit
Serves p = ⊥

-- A run in which thread `t` of slot `i` makes so many steps and never serves, and in which the server
-- is not stopped.
pub data Waits (n k i t : ℕ) (p : Pool) : ℕ → Pool → Type 0 where
  begins : Waits n k i t p 0 p
  scheduler :
      {c : ℕ} {q : Pool} {s : ℕ → Slot} {d : Sched}
      → Waits n k i t p c q
      → Plan n k q.slots q.sched s d
      → is_stopping d ≡ false
      → Waits n k i t p c (record { slots = s; sched = d })
  other :
      {c : ℕ} {q : Pool} (j u : ℕ) {m : Ctl} {x : Pc}
      → Waits n k i t p c q
      → u < (q.slots j).born
      → (j ≢ i) ⊎ (u ≢ t)
      → Move (q.slots j).ctl ((q.slots j).pc u) m x
      → Waits n k i t p c (record q {
        slots = update q.slots j (record (q.slots j) { ctl = m; pc = update (q.slots j).pc u x });
      })
  own :
      {c : ℕ} {q : Pool} {m : Ctl} {x : Pc}
      → Waits n k i t p c q
      → Move (q.slots i).ctl ((q.slots i).pc t) m x
      → ¬ Serves x
      → Waits n k i t p (suc c) (record q {
        slots = update q.slots i (record (q.slots i) { ctl = m; pc = update (q.slots i).pc t x });
      })

Stage-live : (f : Bool) (x : Pc) (left : ℕ) → Stage f x left → x ≢ gone
Stage-live f x left s e = ground arith

-- A move of the thread itself brings it one step nearer.
Move-Stage :
    {m m' : Ctl} {x y : Pc} {left : ℕ}
    → Move m x m' y
    → m.flags ≢ detaching
    → Stage m.free x left
    → ¬ Serves y
    → (left' : ℕ) × (left ≡ suc left') × Stage m'.free y left' × (m'.flags ≢ detaching)
Move-Stage (go_on g) going (unlocked, is) unserved = (3, is, (unlocked, refl), going)
Move-Stage (lock f) going (unlocked, is) unserved = (2, is, refl, going)
Move-Stage run going is unserved = (1, is, refl, λ e. cc)
Move-Stage begin going is unserved = absurd (unserved tt)
Move-Stage (stop g) going stage unserved = absurd (going g)
Move-Stage (busy f) going (unlocked, is) unserved = cc
Move-Stage mv going stage unserved = absurd stage

Stage-open : (f : Bool) (x : Pc) (left : ℕ) → Stage f x left → Stage true x left
Stage-open f testing left s = (refl, s.1)
Stage-open f trying left s = (refl, s.1)
Stage-open f taken left s = s
Stage-open f starting left s = s
Stage-open f x left s = absurd s

-- A slot with a thread on its way.
abbrev Going : (t left : ℕ) → Slot → Type 0
Going t left s = (t < s.born) × (s.ctl.flags ≢ detaching) × Stage s.ctl.free (s.pc t) left

update-keeps :
    (P : Slot → Type 0) (s : ℕ → Slot) (j i : ℕ) (new : Slot)
    → (i ≡ j → P new)
    → P (s i)
    → P (update s j new i)
update-keeps P s j i new changed kept = elim (Bool-cases (i == j)) [
  | inl this ↦ rw this (changed ((==_iff i j).0 this))
  | inr others ↦ rw others kept
]

-- A slot that the scheduler takes for empty has no thread on its way.
Bare-Going : {c : Sched} {s : Slot} (i t left : ℕ) → SlotInv c i s → Going t left s → Bare c i → ⊥
Bare-Going {s} i t left v (lt, going, stage) b =
    Stage-live s.ctl.free (s.pc t) left stage (v.bare b t lt)

-- What the scheduler leaves of a slot with a thread on its way, unless it stops the server.
Plan-Going :
    {n k : ℕ} {s s' : ℕ → Slot} {c c' : Sched} (i t left : ℕ)
    → SlotInv c i (s i)
    → Plan n k s c s' c'
    → is_stopping c' ≡ false
    → Going t left (s i)
    → Going t left (s' i)
Plan-Going {s} i t left v (create {back = none} {i = j}) on g =
    update-keeps (Going t left) s j i _ (λ e. absurd (Bare-Going i t left v g (omega arith))) g
Plan-Going {s} i t left v (create {back = some sc} {i = j}) on g =
    update-keeps (Going t left) s j i _ (λ e. absurd (Bare-Going i t left v g e)) g
Plan-Going {s} i t left v (launch {back = none} {i = j}) on g =
    update-keeps (Going t left) s j i _ (λ e. absurd (Bare-Going i t left v g (omega arith))) g
Plan-Going {s} i t left v (launch {back = some sc} {i = j}) on g =
    update-keeps (Going t left) s j i _ (λ e. absurd (Bare-Going i t left v g e)) g
Plan-Going i t left v delete on g = cc
Plan-Going {s} i t left v (give {i = j}) on g =
    update-keeps (Going t left) s j i _ (λ e. subst (λ x. Going t left (s x)) e g) g
Plan-Going {s} i t left v (open_lock {i = j}) on g =
    update-keeps (Going t left) s j i _
      (λ e.
        let (lt, going, stage) = subst (λ x. Going t left (s x)) e g in
        (lt, going, Stage-open (s j).ctl.free ((s j).pc t) left stage))
      g
Plan-Going i t left v pl on g = g

-- Two live threads of a slot are one.
same_thread :
    {c : Sched} {s : Slot} (j t u rest : ℕ) {m : Ctl} {x : Pc}
    → SlotInv c j s
    → Going t rest s
    → u < s.born
    → Move s.ctl (s.pc u) m x
    → u ≡ t
same_thread {s} j t u rest v (lt, going, stage) lt' mv =
    v.single u t lt' lt (Move-live mv) (Stage-live s.ctl.free (s.pc t) rest stage)

own-Going :
    (s : Slot) (t left : ℕ) {m : Ctl} {x : Pc}
    → Going t left s
    → Move s.ctl (s.pc t) m x
    → ¬ Serves x
    → (rest : ℕ) × (left ≡ suc rest) × Going t rest (moved s t m x)
unfolding moved
own-Going s t left (lt, going, stage) mv unserved =
    let (rest, is, stage', going') = Move-Stage mv going stage unserved in
    (rest, is, (lt, going', rw ((==_iff t t).1 refl) stage'))

-- In the course of such a run, the steps made and the steps left add up to those at its beginning.
Waits-Going :
    {n k i t : ℕ} {p : Pool} {left : ℕ} {c : ℕ} {q : Pool}
    → Inv p
    → Going t left (p.slots i)
    → Waits n k i t p c q
    → (rest : ℕ) × Inv q × (left ≡ c + rest) × Going t rest (q.slots i)
unfolding moved
Waits-Going {left} inv g begins = (left, inv, omega arith, g)
Waits-Going {i} {t} inv g (scheduler w pl on) =
    let (rest, inv', sum, g') = Waits-Going inv g w in
    (rest, Step-Inv inv' (plan pl), sum, Plan-Going i t rest (inv' i) pl on g')
Waits-Going {n} {k} {i} {t} inv g (other {q} j u {m} {x} w lt differs mv) =
    let (rest, inv', sum, g') = Waits-Going inv g w in
    (
      rest,
      Step-Inv {n = n} {k = k} inv' (work j u lt mv),
      sum,
      update-keeps (Going t rest) q.slots j i _
          (λ e. absurd (elim differs [
            | inl away ↦ away (sym e)
            | inr another ↦
                another (
                  same_thread j t u rest (inv' j) (subst (λ y. Going t rest (q.slots y)) e g') lt
                    mv)
          ]))
          g',
    )
Waits-Going {n} {k} {i} {t} inv g (own {q} {m} {x} w mv unserved) =
    let (rest, inv', sum, g') = Waits-Going inv g w in
    let (less, is, g'') = own-Going (q.slots i) t rest g' mv unserved in
    (
      less,
      Step-Inv {n = n} {k = k} inv' (work i t g'.0 mv),
      omega (arith, sum, is),
      rw ((==_iff i i).1 refl) g'',
    )

-- A thread on its way can always step, and has a step left.
Going-moves :
    (m : Ctl) (x : Pc) (left : ℕ)
    → m.flags ≢ detaching
    → Stage m.free x left
    → (1 ≤ left) × ((m' : Ctl) × (y : Pc) × Move m x m' y)
Going-moves m testing left going (unlocked, is) = (omega arith, (m, trying, go_on going))
Going-moves m trying left going (unlocked, is) = (omega arith, (_, taken, lock unlocked))
Going-moves m taken left going is = (omega arith, (_, starting, run))
Going-moves m starting left going is = (omega arith, (m, serving m.cs, begin))
Going-moves m x left going stage = absurd stage

Stage-woken :
    (f : Bool) (x : Pc)
    → f ≡ true
    → (x ≡ testing) ⊎ (x ≡ trying)
    → (left : ℕ) × (left ≤ 4) × Stage f x left
Stage-woken f x unlocked (inl e) = (4, omega arith, rw e (unlocked, refl))
Stage-woken f x unlocked (inr e) = (3, omega arith, rw e (unlocked, refl))

-- In every state that the pool can reach: a thread that waits for a connection, its mutex unlocked and
-- its flags not WORKER_DETACHING, serves with its fourth step at the latest, whatever the scheduler and
-- the other threads do in between, unless they stop the server; and until then it is never blocked.
pub served_in_four :
    {n k i t c : ℕ} {p q : Pool}
    → Reach n k fresh_pool p
    → t < (p.slots i).born
    → ((p.slots i).pc t ≡ testing) ⊎ ((p.slots i).pc t ≡ trying)
    → (p.slots i).ctl.free ≡ true
    → (p.slots i).ctl.flags ≢ detaching
    → Waits n k i t p c q
    → (c ≤ 3) × ((m : Ctl) × (x : Pc) × Move (q.slots i).ctl ((q.slots i).pc t) m x)
served_in_four {i} {t} {c} {p} {q} r lt waiting unlocked going w =
    let (left, few, stage) = Stage-woken (p.slots i).ctl.free ((p.slots i).pc t) unlocked waiting in
    let (rest, _, sum, (_, going', stage')) = Waits-Going (Reach-Inv r) (lt, going, stage) w in
    let (more, moves) = Going-moves (q.slots i).ctl ((q.slots i).pc t) rest going' stage' in
    (omega (arith, more, sum, few), moves)
