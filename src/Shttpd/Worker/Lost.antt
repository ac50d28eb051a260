-- ===== src/Shttpd/Worker/Lost.antt =====
-- A connection that is given to a worker which has not woken up yet.
use linux_program_practice.Base.{ℕ, ◌<◌, ◌≡◌, refl, ◌≢◌, true, some, arith}
use linux_program_practice.Shttpd.Worker.{
  idel, with_ctl, serving, unlock_init, wake, Slot, polling, Pool, plan, work, Reach, start, later,
  fresh_pool, next_init, ready, accept, hit_idle, add, create, launch, join, give, open_lock,
  update, with_ctl, Plan, Sched, scanning,
}

-- A pool that waits for a client.
abbrev pub waits : (ℕ → Slot) → Pool
waits s = record { slots = s; sched = polling }

-- The slots after a connection was given to the first.
abbrev given : ℕ → (ℕ → Slot) → ℕ → Slot
given sc s =
    let t = update s 0 (with_ctl (record (s 0).ctl { cs = some sc }) (s 0)) in
    update t 0 (with_ctl (record (t 0).ctl { free = true }) (t 0))

-- No slot holds the connection, and no thread serves it.
abbrev pub Dropped : ℕ → (ℕ → Slot) → Type 0
Dropped sc s = (i : ℕ) → ((s i).ctl.cs ≢ some sc) × ((t : ℕ) → (s i).pc t ≢ serving (some sc))

given-Dropped : (a b : ℕ) (s : ℕ → Slot) → a ≢ b → Dropped a s → Dropped a (given b (given a s))
given-Dropped a b s ne d i = (λ e. ground (arith, (d i).0), λ t e. ground (arith, (d i).1 t))

-- Connection `sc` was accepted, and the search for a worker begins.
abbrev pub offers : ℕ → (ℕ → Slot) → Pool
offers sc s = record { slots = s; sched = scanning idel sc 0 }

-- Steps of the scheduler alone: no thread moves.
pub data Plans (n k : ℕ) (p : Pool) : Pool → Type 0 where
  nothing : Plans n k p p
  next_step :
      {q : Pool} {s : ℕ → Slot} {c : Sched}
      → Plans n k p q
      → Plan n k q.slots q.sched s c
      → Plans n k p (record { slots = s; sched = c })

Plans-Reach : {n k : ℕ} {o p q : Pool} → Reach n k o p → Plans n k p q → Reach n k o q
Plans-Reach r nothing = r
Plans-Reach r (next_step ps m) = later (Plans-Reach r ps) (plan m)

-- A run with `n` slots in which connection `a` is accepted and given to the first slot, and then `b`
-- is: in the end no slot holds `a`, and no thread serves it.
pub record TakenOver (n a b : ℕ) : Type 0 where
  pub before : ℕ → Slot
  pub held : ℕ → Slot
  pub after : ℕ → Slot
  pub waiting : Reach n 1 fresh_pool (waits before)
  pub a_accepted : Plan n 1 before polling before (scanning idel a 0)
  pub a_given : Plans n 1 (offers a before) (waits held)
  pub a_held : (held 0).ctl.cs ≡ some a
  pub b_accepted : Plan n 1 held polling held (scanning idel b 0)
  pub b_given : Plans n 1 (offers b held) (waits after)
  pub b_held : (after 0).ctl.cs ≡ some b
  pub reached : Reach n 1 fresh_pool (waits after)
  pub dropped : Dropped a after

module _ (n : ℕ) (room : 0 < n) where
  hands :
      (sc : ℕ) (s : ℕ → Slot)
      → (s 0).ctl.flags ≡ idel
      → Plans n 1 (offers sc s) (waits (given sc s))
  hands sc s idle = next_step (next_step (next_step nothing (hit_idle room idle)) give) open_lock

  -- The first worker is started and marks itself idle.
  first_idle :
      (s : ℕ → Slot) × Reach n 1 fresh_pool (waits s)
      × ((s 0).ctl.flags ≡ idel)
      × ((sc : ℕ) → Dropped sc s)
  first_idle = (
    _,
    later
        (later
          (later
            (later
              (later
                (later
                  (later (later start (plan (next_init (omega arith))))
                    (plan (add (λ e. ground arith))))
                  (plan create))
                (plan launch))
              (work 0 0 (omega arith) unlock_init))
            (plan (join (λ e. ground arith))))
          (plan (ready (omega arith))))
        (work 0 0 (omega arith) wake),
    refl,
    λ sc i. (λ e. ground arith, λ t e. ground arith),
  )

  -- With one worker from the start, a reachable pool may accept connection `a` and give it to the
  -- idle worker, and then accept connection `b` and give it to the same worker, all by steps of the
  -- scheduler alone, which closes no connection: then `a` is in no slot and served by no thread.
  pub second_client_lost : (a b : ℕ) → a ≢ b → TakenOver n a b
  second_client_lost a b ne =
      let (s, r, idle, none_yet) = first_idle in
      record {
        before = s;
        held = given a s;
        after = given b (given a s);
        waiting = r;
        a_accepted = accept a;
        a_given = hands a s idle;
        a_held = refl;
        b_accepted = accept b;
        b_given = hands b (given a s) idle;
        b_held = refl;
        reached =
            Plans-Reach
              (later (Plans-Reach (later r (plan (accept a))) (hands a s idle)) (plan (accept b)))
              (hands b (given a s) idle);
        dropped = given-Dropped a b s ne (none_yet a);
      }
