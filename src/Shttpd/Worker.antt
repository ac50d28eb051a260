-- ===== src/Shttpd/Worker.antt =====
-- LinuxCodeBak/Code/18/shttpd_worker.c: the pool of worker threads and the scheduler, interleaved in
-- any order, one access to shared memory a step. A slot is an element of the array `wctls`; the
-- scheduler is the main thread, which SIGINT makes run Worker_ScheduleStop at any point. The
-- handling of requests in do_work is one step, and `workersnum`, which nothing reads, is left out.
-- pthread_create is taken to succeed, InitClient to be at most MaxClient, and the program to end when
-- Worker_ScheduleStop returns: the interrupted scheduler does not go on.
pub mod Single
pub mod Lost
pub mod Stop
pub mod Served
use linux_program_practice.Base.{
  ℕ, suc, ◌≤◌, ◌<◌, ◌≡◌, ◌≢◌, ◌⊎◌, Bool, true, false, Option, none, some, ◌==◌, if◌then◌else◌, zero,
  ◌+◌, ◌-◌, ◌*◌, ◌/◌, ◌%◌, ◌^◌, min, refl, sym, ap, subst, ◌∙◌, ◌↔◌, inl, inr, not, ◌&&◌, ◌||◌,
  List, [], ◌∷◌, ◌++◌, map, append-nil, append_assoc, arith, ltb, leb, ltb→lt, lt→ltb, leb→le,
  ==_iff, &&_iff, Bool-cases, Option-cases, ◌>>=◌, >>=-eq-some, length, get_elem?, set, take, drop,
  All, length-append, length-set, get_elem?-set_self, get_elem?-set_ne, All-set, All-get,
  take-append-drop, length-take, length-drop, codes, get_elem?-append, set-append,
}

-- enum of shttpd.h
pub data Flags : Type 0 where
  inited running detaching detached idel : Flags

-- What a slot shares with its threads: opts.flags, whether opts.mutex is unlocked, and conn.cs, with
-- `none` for -1.
pub record Ctl : Type 0 where
  pub flags : Flags
  pub free : Bool
  pub cs : Option ℕ

-- Where a thread of `worker` stands.
pub data Pc : Type 0 where
  entry : Pc  -- before thread_init is unlocked
  waking : Pc  -- before the first flags = WORKER_IDEL
  testing : Pc  -- the test of the loop
  trying : Pc  -- pthread_mutex_trylock
  taken : Pc  -- before flags = WORKER_RUNNING
  starting : Pc  -- start of do_work, before fd is read
  serving : Option ℕ → Pc  -- do_work, with its fd
  clearing : Pc  -- before close(conn.cs) and conn.cs = -1
  checking : Pc  -- the test behind the work
  resting : Pc  -- before flags = WORKER_IDEL
  leaving : Pc  -- before flags = WORKER_DETACHED
  gone : Pc

-- One step of one thread.
pub data Move (m : Ctl) : Pc → Ctl → Pc → Type 0 where
  unlock_init : Move m entry m waking
  wake : Move m waking (record m { flags = idel }) testing
  stop : m.flags ≡ detaching → Move m testing m leaving
  go_on : m.flags ≢ detaching → Move m testing m trying
  busy : m.free ≡ false → Move m trying m testing
  lock : m.free ≡ true → Move m trying (record m { free = false }) taken
  run : Move m taken (record m { flags = running }) starting
  begin : Move m starting m (serving m.cs)
  serve : {fd : Option ℕ} → Move m (serving fd) m clearing
  clear : Move m clearing (record m { cs = none }) checking
  quit : m.flags ≡ detaching → Move m checking m leaving
  stay : m.flags ≢ detaching → Move m checking m resting
  rest : Move m resting (record m { flags = idel }) testing
  detach : Move m leaving (record m { flags = detached }) gone

-- A slot with the threads that were created for it, by number: those from `born` on do not exist.
pub record Slot : Type 0 where
  pub ctl : Ctl
  pub born : ℕ
  pub pc : ℕ → Pc

-- Where the scheduler stands. `back` is the accepted connection that waits for the thread, or `none`
-- in Worker_Init.
pub data Sched : Type 0 where
  init : ℕ → Sched  -- the second loop of Worker_Init
  polling : Sched  -- select and accept
  scanning : Flags → ℕ → ℕ → Sched  -- WORKER_ISSTATUS, for a connection, at a slot
  adding : Option ℕ → ℕ → Sched  -- Worker_Add: the test of the flags
  creating : Option ℕ → ℕ → Sched  -- before flags = WORKER_INITED
  launching : Option ℕ → ℕ → Sched  -- before pthread_create
  joining : Option ℕ → ℕ → ℕ → Sched  -- waits for thread_init, for that thread
  giving : ℕ → ℕ → Sched  -- before conn.cs = sc
  opening : ℕ → Sched  -- before pthread_mutex_unlock
  destroying : ℕ → Sched  -- Worker_Destory: the test of the flags
  deleting : ℕ → Sched  -- Worker_Delete
  draining : Bool → ℕ → Sched  -- the second loop, with `clean`
  firing : Bool → ℕ → Sched  -- the loop of Worker_ScheduleStop, with `allfired`
  stopped : Sched

abbrev pub update {ℓ} : {A : Type ℓ} → (ℕ → A) → ℕ → A → ℕ → A
update f i a j = if j == i then a else f j

abbrev pub with_ctl : Ctl → Slot → Slot
with_ctl m s = record s { ctl = m }

abbrev pub with_flags : Flags → Slot → Slot
with_flags f s = record s { ctl = record s.ctl { flags = f } }

-- After Worker_Add.
abbrev pub resume : Option ℕ → ℕ → Sched
resume none i = init (suc i)
resume (some sc) i = giving sc i

-- In the signal handler, during which SIGINT is blocked.
abbrev pub is_stopping : Sched → Bool
is_stopping (destroying i) = true
is_stopping (deleting i) = true
is_stopping (draining clean i) = true
is_stopping (firing fired i) = true
is_stopping stopped = true
is_stopping c = false

-- One step of the scheduler of `n` slots, `k` of them with a thread from the start.
pub data Plan (n k : ℕ) (s : ℕ → Slot) : Sched → (ℕ → Slot) → Sched → Type 0 where
  next_init : {i : ℕ} → i < k → Plan n k s (init i) s (adding none i)
  ready : {i : ℕ} → k ≤ i → Plan n k s (init i) s polling
  accept : (sc : ℕ) → Plan n k s polling s (scanning idel sc 0)
  hit_idle :
      {sc i : ℕ} → i < n → (s i).ctl.flags ≡ idel → Plan n k s (scanning idel sc i) s (giving sc i)
  hit_detached :
      {sc i : ℕ}
      → i < n
      → (s i).ctl.flags ≡ detached
      → Plan n k s (scanning detached sc i) s (adding (some sc) i)
  miss :
      {f : Flags} {sc i : ℕ}
      → i < n
      → (s i).ctl.flags ≢ f
      → Plan n k s (scanning f sc i) s (scanning f sc (suc i))
  no_idle : {sc i : ℕ} → n ≤ i → Plan n k s (scanning idel sc i) s (scanning detached sc 0)
  no_slot : {sc i : ℕ} → n ≤ i → Plan n k s (scanning detached sc i) s polling
  add_running :
      {back : Option ℕ} {i : ℕ}
      → (s i).ctl.flags ≡ running
      → Plan n k s (adding back i) s (resume back i)
  add :
      {back : Option ℕ} {i : ℕ}
      → (s i).ctl.flags ≢ running
      → Plan n k s (adding back i) s (creating back i)
  create :
      {back : Option ℕ} {i : ℕ}
      → Plan n k s (creating back i) (update s i (with_flags inited (s i))) (launching back i)
  launch :
      {back : Option ℕ} {i : ℕ}
      → Plan n k s
          (launching back i)
          (update s i
            (record (s i) { born = suc (s i).born; pc = update (s i).pc (s i).born entry }))
          (joining back i (s i).born)
  join :
      {back : Option ℕ} {i t : ℕ}
      → (s i).pc t ≢ entry
      → Plan n k s (joining back i t) s (resume back i)
  give :
      {sc i : ℕ}
      → Plan n k s
          (giving sc i)
          (update s i (with_ctl (record (s i).ctl { cs = some sc }) (s i)))
          (opening i)
  open_lock :
      {i : ℕ}
      → Plan n k s
          (opening i)
          (update s i (with_ctl (record (s i).ctl { free = true }) (s i)))
          polling
  interrupt : {c : Sched} → is_stopping c ≡ false → Plan n k s c s (destroying 0)
  destroy : {i : ℕ} → i < n → (s i).ctl.flags ≢ detached → Plan n k s (destroying i) s (deleting i)
  spare :
      {i : ℕ}
      → i < n
      → (s i).ctl.flags ≡ detached
      → Plan n k s (destroying i) s (destroying (suc i))
  delete :
      {i : ℕ}
      → Plan n k s (deleting i) (update s i (with_flags detaching (s i))) (destroying (suc i))
  destroyed : {i : ℕ} → n ≤ i → Plan n k s (destroying i) s (draining true 0)
  drain_busy :
      {clean : Bool} {i : ℕ}
      → i < n
      → ((s i).ctl.flags ≡ running) ⊎ ((s i).ctl.flags ≡ detaching)
      → Plan n k s (draining clean i) s (draining false (suc i))
  drain_calm :
      {clean : Bool} {i : ℕ}
      → i < n
      → (s i).ctl.flags ≢ running
      → (s i).ctl.flags ≢ detaching
      → Plan n k s (draining clean i) s (draining clean (suc i))
  drain_again : {i : ℕ} → n ≤ i → Plan n k s (draining false i) s (draining true 0)
  drained : {i : ℕ} → n ≤ i → Plan n k s (draining true i) s (firing true 0)
  fire_wait :
      {fired : Bool} {i : ℕ}
      → i < n
      → ((s i).ctl.flags ≡ detaching) ⊎ ((s i).ctl.flags ≡ idel)
      → Plan n k s (firing fired i) s (firing false (suc i))
  fire_calm :
      {fired : Bool} {i : ℕ}
      → i < n
      → (s i).ctl.flags ≢ detaching
      → (s i).ctl.flags ≢ idel
      → Plan n k s (firing fired i) s (firing fired (suc i))
  fire_again : {i : ℕ} → n ≤ i → Plan n k s (firing false i) s (firing true 0)
  fired_all : {i : ℕ} → n ≤ i → Plan n k s (firing true i) s stopped

pub record Pool : Type 0 where
  pub slots : ℕ → Slot
  pub sched : Sched

-- One step of the scheduler or of a thread that was created.
pub data Step (n k : ℕ) (p : Pool) : Pool → Type 0 where
  plan :
      {s : ℕ → Slot} {c : Sched}
      → Plan n k p.slots p.sched s c
      → Step n k p (record { slots = s; sched = c })
  work :
      (i t : ℕ) {m : Ctl} {q : Pc}
      → t < (p.slots i).born
      → Move (p.slots i).ctl ((p.slots i).pc t) m q
      → Step n k p (record p {
        slots = update p.slots i (record (p.slots i) { ctl = m; pc = update (p.slots i).pc t q });
      })

-- After the first loop of Worker_Init: the mutex of every slot is locked.
abbrev pub fresh_slot : Slot
fresh_slot = record {
  ctl = record { flags = detached; free = false; cs = none };
  born = 0;
  pc = λ t. gone;
}

abbrev pub fresh_pool : Pool
fresh_pool = record { slots = λ i. fresh_slot; sched = init 0 }

-- The states that lead from `o` on.
pub data Reach (n k : ℕ) (o : Pool) : Pool → Type 0 where
  start : Reach n k o o
  later : {p q : Pool} → Reach n k o p → Step n k p q → Reach n k o q
