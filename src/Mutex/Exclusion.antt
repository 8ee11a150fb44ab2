-- ===== src/Mutex/Exclusion.antt =====
-- Mutual exclusion of the mutex, for every number of threads and every interleaving.
use usync.Prelude.{
  ℕ, zero, suc, ◌+◌, ◌≤◌, ◌<◌, Bool, true, false, List, ◌≢◌, refl, if◌then◌else◌, bit,
  total-eq-zero, total_mono, arith,
}
use usync.Prog.{bad_word, ◌>>◌, run, halt}
use usync.Prog.Safe.{Safe, Sound, run-Sound, Safe-Outcome}
use usync.Shared.{fresh_memory, Config}
use usync.RwLock.Wake.{Code}
use usync.Mutex.{init, lock, try_lock, unlock}
use usync.Mutex.Roles.{Role, outside, Allowed, Ok, mutex, Inv, Inv-Sees, Moves-Inv}
use usync.Shared.Protocol.{Sees, Moves, after, quiet, if-Keeps, count-Keeps}
use usync.Mutex.Wake.{EndsIn}
use usync.Mutex.Lock.{owner, Got, try_lock_exclusive_fast-Ok, lock_exclusive-Ok}
use usync.Mutex.Unlock.{unlock_exclusive-Ok}
use usync.Mutex.Client.{critical, worker, start}

module _ (g : Config) (self me : ℕ) where
  pub lock-Ok : Ok (EndsIn owner) (lock g self me) outside
  unfolding lock
  lock-Ok = lock_exclusive-Ok g self me

  try_lock-Ok : Ok Got (try_lock g self me) outside
  unfolding try_lock
  try_lock-Ok = try_lock_exclusive_fast-Ok g

  pub unlock-Ok : Ok (EndsIn outside) (unlock g self me) owner
  unfolding unlock
  unlock-Ok = unlock_exclusive-Ok g self

abbrev inside_owner : Role
inside_owner = record { holds = 1; queue = 0; within = 1 }

-- Between its two counts a thread is inside, and owns the lock.
pub critical-Ok : Ok (EndsIn owner) critical owner
unfolding critical
critical-Ok = count-Keeps mutex _ _ λ s c k w. (
  inside_owner,
  ground (arith, k.holds, k.queued, k.no_reader),
  count-Keeps mutex _ _
      λ s c k w. (owner, ground (arith, w.inside, k.holds, k.queued, k.no_reader), Safe.ret refl),
)

-- A critical section with the lock, and what follows it.
section-Ok :
    (g : Config) (self me : ℕ) (next : Code (Unit {0}))
    → Ok (EndsIn outside) next outside
    → Ok (EndsIn outside) (critical >> (unlock g self me >> next)) owner
section-Ok g self me next h =
    after mutex _ critical-Ok λ _ r e. rw e (after mutex _ (unlock-Ok g self me) λ _ r e. rw e h)

tried-Ok :
    (b : Bool) (r : Role) {p q : Code (Unit {0})}
    → Got b r
    → Ok (EndsIn outside) p owner
    → Ok (EndsIn outside) q outside
    → Ok (EndsIn outside) (if b then p else q) r
tried-Ok true r e h k = rw e h
tried-Ok false r e h k = rw e k

worker-Ok :
    (g : Config) (self me rounds : ℕ) → Ok (EndsIn outside) (worker g self me rounds) outside
unfolding worker
worker-Ok g self me zero = Safe.ret refl
worker-Ok g self me (suc k) =
    quiet mutex _ _ _ (λ c m. (refl, refl))
      λ blocking.
        if-Keeps mutex blocking
          (λ _.
            after mutex _ (lock-Ok g self me)
              λ _ r e. rw e (section-Ok g self me _ (worker-Ok g self me k)))
          λ _. after mutex _ (try_lock-Ok g self me) λ got r e.
            tried-Ok got r e (section-Ok g self me _ (worker-Ok g self me k))
              (worker-Ok g self me k)

Inv-start : (g : Config) (self n rounds : ℕ) → Inv n (fresh_memory init) (λ _. outside)
Inv-start g self n rounds = record {
  holds = total-eq-zero (λ (r : Role). r.holds) n _ (λ _ _. refl);
  queue = total-eq-zero (λ (r : Role). r.queue) n _ (λ _ _. refl);
  inside = total-eq-zero (λ (r : Role). r.within) n _ (λ _ _. refl);
  within = λ i. omega arith;
  no_reader = refl;
  queued = omega arith;
}

-- Every reachable state of the workers is one in which the invariant holds for some roles.
reachable :
    (g : Config) (self n rounds : ℕ) (l : List (ℕ × Bool))
    → (rs : ℕ → Role) × Sound
        (Sees mutex)
        (Moves mutex)
        Allowed
        n
        (Inv n)
        (Inv-Sees n)
        (Moves-Inv n)
        (EndsIn outside)
        (run (start g self n rounds) l)
        rs
reachable g self n rounds l =
    run-Sound (Sees mutex) (Moves mutex) Allowed n (Inv n) (Inv-Sees n) (Moves-Inv n)
      (start g self n rounds) (λ _. outside) l
      (record {
        counted = refl;
        inv = Inv-start g self n rounds;
        safe = λ i lt. worker-Ok g self (i + 1) rounds;
      })

-- For any number of threads that take the mutex by `lock` and `try_lock` any number of times, on
-- x86 or not, after every schedule at most one thread is in its critical section, and the mutex is
-- locked while one is.
pub mutual_exclusion :
    (g : Config) (self n rounds : ℕ) (l : List (ℕ × Bool))
    → ((run (start g self n rounds) l).memory.counts.inside ≤ 1)
      × ((run (start g self n rounds) l).memory.counts.inside
          ≤ bit (run (start g self n rounds) l).memory.word.locked)
mutual_exclusion g self n rounds l =
    let (rs, sound) = reachable g self n rounds l in
    let few = total_mono (λ (r : Role). r.within) (λ r. r.holds) n rs sound.inv.within in
    ground (arith, few, sound.inv.inside, sound.inv.holds)

-- For any number of threads that take and release the mutex, no thread is stopped by a failed
-- assertion about the state word, after any schedule: about LOCKED, READING, QUEUED or
-- QUEUE_LOCKED, but for the assertion of `unlock_and_unpark` that threads are queued, of which
-- nothing is said.
pub words_hold :
    (g : Config) (self n rounds : ℕ) (l : List (ℕ × Bool)) (i : ℕ)
    → i < n
    → (run (start g self n rounds) l).thread i ≢ halt bad_word
words_hold g self n rounds l i lt e =
    let (rs, sound) = reachable g self n rounds l in
    rw e at (Safe-Outcome (Sees mutex) (Moves mutex) Allowed (sound.safe i lt))
