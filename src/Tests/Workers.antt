-- ===== src/Tests/Workers.antt =====
-- Schedules of the pool of one worker.
use linux_program_practice.Base.{ℕ, ◌<◌, ◌≡◌, refl, ◌≢◌, arith, ◌≤◌, inl}
use linux_program_practice.Shttpd.Worker.Served.{Waits, begins, own, served_in_four}
use linux_program_practice.Shttpd.Worker.{
  Ctl, Pc, Move, waking, entry, idel, detaching, join, ready, accept, hit_idle, give, open_lock,
  go_on, lock, Flags, gone, unlock_init, wake, stopped, Pool, plan, work, Reach, start, later,
  fresh_pool, next_init, add, create, launch, interrupt, destroy, delete, destroyed, inited,
}
use linux_program_practice.Shttpd.Worker.Single.{single_worker}
use linux_program_practice.Shttpd.Worker.Lost.{second_client_lost, TakenOver}
use linux_program_practice.Shttpd.Worker.Stop.{Stuck, stop_waits_forever}

detached_not_running : Flags.detached ≢ Flags.running
detached_not_running e = cc

inited_not_detached : inited ≢ Flags.detached
inited_not_detached e = cc

-- The worker is created, SIGINT arrives before it marks itself idle, and it does so after it was
-- told to end.
abbrev told_early : (p : Pool) × Reach 1 1 fresh_pool p
told_early = (
  _,
  later
      (later
        (later
          (later
            (later
              (later
                (later
                  (later
                    (later (later start (plan (next_init (omega arith))))
                      (plan (add detached_not_running)))
                    (plan create))
                  (plan launch))
                (work 0 0 (omega arith) unlock_init))
              (plan (interrupt refl)))
            (plan (destroy (omega arith) inited_not_detached)))
          (plan delete))
        (plan (destroyed (omega arith))))
      (work 0 0 (omega arith) wake),
)

told_early-Stuck : Stuck 1 0 told_early.0
told_early-Stuck = record {
  below = omega arith;
  phase = tt;
  slot = record { idle = refl; locked = refl; asleep = λ t h. ground arith };
}

stop_waits_forever_example : told_early.0.sched ≢ stopped
stop_waits_forever_example = stop_waits_forever {k = 1} told_early-Stuck start

single_worker_example :
    ((t u : ℕ)
      → t < 1
      → u < 1
      → (told_early.0.slots 0).pc t ≢ gone
      → (told_early.0.slots 0).pc u ≢ gone
      → t ≡ u)
    × ((told_early.0.slots 0).ctl.flags ≡ Flags.detached
        → (t : ℕ) → t < 1
        → (told_early.0.slots 0).pc t ≡ gone)
single_worker_example = single_worker told_early.1 0

second_client_lost_example : TakenOver 4 7 8
second_client_lost_example = second_client_lost 4 (omega arith) 7 8 (omega arith)

waking_not_entry : waking ≢ entry
waking_not_entry e = cc

idle_not_detaching : idel ≢ detaching
idle_not_detaching e = cc

-- The worker is idle, gets connection 7, and its mutex is unlocked.
abbrev woken : (p : Pool) × Reach 1 1 fresh_pool p
woken = (
  _,
  later
      (later
        (later
          (later
            (later
              (later
                (later
                  (later
                    (later
                      (later
                        (later (later start (plan (next_init (omega arith))))
                          (plan (add detached_not_running)))
                        (plan create))
                      (plan launch))
                    (work 0 0 (omega arith) unlock_init))
                  (plan (join waking_not_entry)))
                (plan (ready (omega arith))))
              (work 0 0 (omega arith) wake))
            (plan (accept 7)))
          (plan (hit_idle (omega arith) refl)))
        (plan give))
      (plan open_lock),
)

-- It tests its flags and takes the mutex.
abbrev on_the_way : (q : Pool) × Waits 1 1 0 0 woken.0 2 q
on_the_way = (_, own (own begins (go_on idle_not_detaching) (λ s. s)) (lock refl) (λ s. s))

served_in_four_example :
    (2 ≤ 3)
    × ((m : Ctl) × (x : Pc) × Move (on_the_way.0.slots 0).ctl ((on_the_way.0.slots 0).pc 0) m x)
served_in_four_example =
    served_in_four woken.1 (omega arith) (inl refl) refl idle_not_detaching on_the_way.1
