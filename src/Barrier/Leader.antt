-- ===== src/Barrier/Leader.antt =====
-- What the barrier promises, for every number of threads and every interleaving.
use usync.Prelude.{
  ℕ, zero, suc, ◌+◌, ◌≤◌, ◌<◌, Bool, true, false, List, ◌++◌, update, ◌≡◌, ◌≢◌, refl, if◌then◌else◌,
  total-eq-zero, arith,
}
use usync.Prog.{bad_word, skip, halt, ◌>>◌, run}
use usync.Prog.Safe.{Safe, Sound, run-Sound, run-append, Safe-Outcome}
use usync.Shared.{Memory, count, fresh_memory, Config}
use usync.Shared.Protocol.{Sees, Moves, after, count-Keeps}
use usync.Barrier.{Word, new, is_completed}
use usync.Barrier.Roles.{Role, Ok, barrier, Allowed, Inv, Inv-Sees, Moves-Inv, completes}
use usync.Barrier.Wait.{fresh, seen, leader, wait-Ok}
use usync.Barrier.Client.{waiter, start}

-- Between two waits a thread has nothing to count.
abbrev Between : Unit {0} → Role → Type 0
Between _ r = (r.leads ≡ 0) × (r.queue ≡ 0)

-- Counting the leader, and the return.
lead-Ok :
    (b : Bool)
    → Ok
        (λ _ r. r ≡ seen)
        (if b then count (λ c. record c { finished = c.finished + 1 }) >> skip else skip)
        (if b then leader else seen)
lead-Ok true =
    count-Keeps barrier _ _ λ w c k f. (seen, ground (arith, k.queue, k.saw), Safe.ret refl)
lead-Ok false = Safe.ret refl

waiter-Ok :
    (g : Config) (me rounds : ℕ) (r : Role)
    → r.leads ≡ 0
    → r.queue ≡ 0
    → Ok Between (waiter g me rounds) r
unfolding waiter
waiter-Ok g me zero r l q = Safe.ret (l, q)
waiter-Ok g me (suc n) r l q = after barrier _ (wait-Ok g me r l q) λ b r' e. rw e (
    after barrier _ (lead-Ok b) λ _ r'' e'. rw e' (
      count-Keeps barrier _ _
        λ w c k f. (seen, ground (arith, k.queue, k.saw), waiter-Ok g me n seen refl refl)))

Inv-start : (size n : ℕ) → Inv (new size) n (fresh_memory (new size)) (λ _. fresh)
unfolding new
Inv-start size n = record {
  queue = total-eq-zero (λ (r : Role). r.queue) n (λ _. fresh) (λ _ _. refl);
  leads = ground (arith, total-eq-zero (λ (r : Role). r.leads) n (λ _. fresh) (λ _ _. refl));
  leader = λ i. omega arith;
  saw = λ i. omega arith;
  passed = λ h. absurd (h refl);
}

reachable :
    (g : Config) (size n rounds : ℕ) (l : List (ℕ × Bool))
    → (rs : ℕ → Role) × Sound
        (Sees barrier)
        (Moves barrier)
        Allowed
        n
        (Inv (new size) n)
        (Inv-Sees (new size) n)
        (Moves-Inv (new size) n)
        Between
        (run (start g size n rounds) l)
        rs
reachable g size n rounds l =
    run-Sound (Sees barrier) (Moves barrier) Allowed n (Inv (new size) n) (Inv-Sees (new size) n)
      (Moves-Inv (new size) n) (start g size n rounds) (λ _. fresh) l
      (record {
        counted = refl;
        inv = Inv-start size n;
        safe = λ i lt. waiter-Ok g (i + 1) rounds fresh refl refl;
      })

-- For any count of the barrier and any number of threads that wait at it any number of times, after
-- every schedule at most one call of `wait`, of all calls ever made, has returned as the leader.
pub one_leader :
    (g : Config) (size n rounds : ℕ) (l : List (ℕ × Bool))
    → (run (start g size n rounds) l).memory.counts.finished ≤ 1
one_leader g size n rounds l =
    let (rs, sound) = reachable g size n rounds l in ground (arith, sound.inv.leads)

-- For any count of the barrier and any number of threads that wait at it any number of times,
-- after every schedule: if some call of `wait` has returned, the barrier is completed.
pub passed-is_completed :
    (g : Config) (size n rounds : ℕ) (l : List (ℕ × Bool))
    → (run (start g size n rounds) l).memory.counts.inside ≢ 0
    → is_completed (run (start g size n rounds) l).memory.word ≡ true
passed-is_completed g size n rounds l passed =
    let (rs, sound) = reachable g size n rounds l in ground (arith, sound.inv.passed passed)

-- The invariant at a completed barrier.
abbrev Completed : Word → ℕ → Memory Word → (ℕ → Role) → Type 0
Completed first n m rs = Inv first n m rs × (completes m.word ≡ 1)

Moves-Completed :
    (first : Word) (n : ℕ) (m : Memory Word) (rs : ℕ → Role) (i : ℕ) (m' : Memory Word) (r' : Role)
    → i < n
    → Completed first n m rs
    → Moves barrier (rs i) m r' m'
    → Completed first n m' (update rs i r')
Moves-Completed first n m rs i m' r' lt (inv, e) mv =
    (Moves-Inv first n m rs i m' r' lt inv mv, ground (arith, mv.final))

-- A barrier is not used again: for any count of it and any number of threads that wait at it any
-- number of times, once it is completed after some schedule it is completed after every longer
-- one.
pub completed_for_good :
    (g : Config) (size n rounds : ℕ) (l l' : List (ℕ × Bool))
    → is_completed (run (start g size n rounds) l).memory.word ≡ true
    → is_completed (run (start g size n rounds) (l ++ l')).memory.word ≡ true
completed_for_good g size n rounds l l' e =
    let (rs, sound) = reachable g size n rounds l in
    let (rs', later) =
      run-Sound (Sees barrier) (Moves barrier) Allowed n (Completed (new size) n)
        (λ m rs i lt (inv, _). Inv-Sees (new size) n m rs i lt inv) (Moves-Completed (new size) n)
        (run (start g size n rounds) l) rs l'
        (record {
          counted = sound.counted;
          inv = (sound.inv, ground (arith, e));
          safe = sound.safe;
        }) in
    rw (run-append (start g size n rounds) l l') (ground (arith, later.inv.1))

-- For any count of the barrier and any number of threads that wait at it, no thread is stopped by
-- a failed assertion about QUEUED or QUEUE_LOCKED, or by a count that is already zero, after any
-- schedule.
pub barrier_words_hold :
    (g : Config) (size n rounds : ℕ) (l : List (ℕ × Bool)) (i : ℕ)
    → i < n
    → (run (start g size n rounds) l).thread i ≢ halt bad_word
barrier_words_hold g size n rounds l i lt e =
    let (rs, sound) = reachable g size n rounds l in
    rw e at (Safe-Outcome (Sees barrier) (Moves barrier) Allowed (sound.safe i lt))
