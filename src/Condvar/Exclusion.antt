-- ===== src/Condvar/Exclusion.antt =====
-- Mutual exclusion of the mutexes that a condition variable is used with, for every number of
-- threads and every interleaving.
use usync.Prelude.{
  ℕ, zero, suc, ◌+◌, ◌*◌, ◌≤◌, ◌<◌, Bool, List, ◌≡◌, ◌≢◌, refl, bit, update_self, update_back,
  Bool-cases, inl, inr, ◌==◌, total-eq-zero, total_mono, ltb, arith,
}
use usync.Prog.{bad_word, halt, run}
use usync.Prog.Safe.{Safe, Sound, run-Sound, Safe-Outcome}
use usync.Shared.{Config}
use usync.Shared.Protocol.{Sees, Moves, after, quiet, if-Keeps}
use usync.Mutex.Roles as Mutex_Roles
use usync.Mutex.Roles.{outside, Allowed}
use usync.Mutex.Lock.{owner}
use usync.Mutex.Exclusion.{lock-Ok, unlock-Ok, critical-Ok}
use usync.Condvar.Roles.{Role, IsWord, Ok, condvar, Inv, Inv-Sees, Moves-Inv}
use usync.Condvar.Rules.{at_lock, on_mutex-Ok, on_mutex-stays}
use usync.Condvar.Requeue.{EndsIn}
use usync.Condvar.Notifying.{Free, notify_one-Ok, notify_all-Ok}
use usync.Condvar.Waiting.{wait-Ok, wait_until-Ok}
use usync.Condvar.Client.{notify, event, worker, clock, threads, start}

notify-Ok : (g : Config) {r : Role} → Free r → Ok (EndsIn r) (notify g) r
unfolding notify
notify-Ok g {r} free =
    quiet condvar _ _ _ (λ c m. (refl, refl))
      λ one.
        after condvar {R = EndsIn r} _
          (if-Keeps condvar one (λ _. notify_one-Ok g free) λ _. notify_all-Ok g free)
          λ _ r' e. Safe.ret e

event-Ok :
    (g : Config) (lock me inner deadline : ℕ) {r : Role}
    → me ≢ 0
    → Free r
    → r.locks lock ≡ owner
    → Ok (EndsIn r) (event g lock me inner deadline) r
unfolding event
event-Ok g lock me inner deadline {r} real free own =
    quiet condvar _ _ _ (λ c m. (refl, refl))
      λ waits.
        if-Keeps condvar waits
          (λ _.
            quiet condvar _ _ _ (λ c m. (refl, refl))
              λ for_ever.
                if-Keeps condvar for_ever (λ _. wait-Ok g lock me inner real free own)
                  λ _.
                    after condvar {R = EndsIn r} _
                      (wait_until-Ok g lock me inner real deadline free own) λ _ r' e. Safe.ret e)
          λ _. notify-Ok g free

abbrev idle : Role
idle = record { locks = λ _. outside; queue = 0; signals = 0 }

idle-Free : Free idle
idle-Free = record { calm = λ l. refl; queue = refl; signals = refl }

module _ (lock : ℕ) where
  -- A thread with the mutex `lock`.
  abbrev with_lock : Role
  with_lock = at_lock lock owner idle

  owns : with_lock.locks lock ≡ owner
  owns = update_self (λ _. outside) lock owner

  with_lock-Free : Free with_lock
  with_lock-Free = record {
    calm =
        λ l. elim (Bool-cases (lock == l)) [ inl here ↦ rw here refl | inr other ↦ rw other refl ];
    queue = refl;
    signals = refl;
  }

  given_up : at_lock lock outside with_lock ≡ idle
  given_up = λ i. record {
    locks = update_back (λ _. outside) lock owner outside refl i;
    queue = 0;
    signals = 0;
  }

  module _ (g : Config) (me inner deadline : ℕ) (real : me ≢ 0) where
    worker-Ok : (rounds : ℕ) → Ok (EndsIn idle) (worker g lock me inner deadline rounds) idle
    unfolding worker
    worker-Ok zero = Safe.ret refl
    worker-Ok (suc k) = on_mutex-Ok lock _ {r = idle} owner (lock-Ok g lock inner) λ _.
        on_mutex-stays lock _ {r = with_lock} (rw owns critical-Ok) λ _.
          after condvar _ (event-Ok g lock me inner deadline real with_lock-Free owns) λ _ r e.
            rw e (
              on_mutex-stays lock _ {r = with_lock} (rw owns critical-Ok) λ _.
                on_mutex-Ok lock _ {r = with_lock} outside (rw owns (unlock-Ok g lock inner)) λ _.
                  rw given_up
                    (after condvar _ (notify-Ok g idle-Free) λ _ r' e'. rw e' (worker-Ok k)))

clock-Ok : (ticks : ℕ) → Ok (EndsIn idle) (clock ticks) idle
unfolding clock
clock-Ok zero = Safe.ret refl
clock-Ok (suc k) = quiet condvar _ _ _ (λ c m. (refl, refl)) λ _. clock-Ok k

thread-Ok :
    (g : Config) (lock_of : ℕ → ℕ) (n deadline ticks rounds i : ℕ)
    → Ok (EndsIn idle) (threads g lock_of n deadline ticks rounds i) idle
thread-Ok g lock_of n deadline ticks rounds i =
    if-Keeps condvar (ltb i n)
      (λ _. worker-Ok (lock_of i) g (2 * i + 1) (2 * i + 2) deadline (omega arith) rounds)
      λ _. clock-Ok ticks

Inv-start :
    (g : Config) (lock_of : ℕ → ℕ) (n deadline ticks rounds : ℕ)
    → Inv (suc n) (start g lock_of n deadline ticks rounds).memory (λ _. idle)
Inv-start g lock_of n deadline ticks rounds = record {
  queue = total-eq-zero (λ (r : Role). r.queue) (suc n) (λ _. idle) (λ _ _. refl);
  signals = λ i lt. omega arith;
  owned = λ i. omega arith;
  word = record { signals = omega arith; no_signal = λ _. refl; no_lock = λ _. refl };
  mutex = λ l. record {
    holds = total-eq-zero (λ (r : Mutex_Roles.Role). r.holds) (suc n) (λ _. outside) (λ _ _. refl);
    queue = total-eq-zero (λ (r : Mutex_Roles.Role). r.queue) (suc n) (λ _. outside) (λ _ _. refl);
    inside =
        total-eq-zero (λ (r : Mutex_Roles.Role). r.within) (suc n) (λ _. outside) (λ _ _. refl);
    within = λ i. omega arith;
    no_reader = refl;
    queued = omega arith;
  };
}

module _ (g : Config) (lock_of : ℕ → ℕ) (n deadline ticks rounds : ℕ) (l : List (ℕ × Bool)) where
  reachable :
      (rs : ℕ → Role) × Sound
        (Sees condvar)
        (Moves condvar)
        Allowed
        (suc n)
        (Inv (suc n))
        (Inv-Sees (suc n))
        (Moves-Inv (suc n))
        (EndsIn idle)
        (run (start g lock_of n deadline ticks rounds) l)
        rs
  reachable =
      run-Sound (Sees condvar) (Moves condvar) Allowed (suc n) (Inv (suc n)) (Inv-Sees (suc n))
        (Moves-Inv (suc n)) (start g lock_of n deadline ticks rounds) (λ _. idle) l
        (record {
          counted = refl;
          inv = Inv-start g lock_of n deadline ticks rounds;
          safe = λ i lt. thread-Ok g lock_of n deadline ticks rounds i;
        })

  -- For any number of threads that use one condition variable, each with its mutex, the same or
  -- different ones, that wait without end and up to a deadline and notify one waiter or all, with
  -- the mutex held and without, while a clock advances so that waits time out, after every schedule
  -- and for each mutex: at most one thread is in a critical section of it, and it is locked while
  -- one is.
  pub guarded_exclusion :
      (k : ℕ)
      → (((run (start g lock_of n deadline ticks rounds) l).memory.word.mutexes k).counts.inside
          ≤ 1)
        × (((run (start g lock_of n deadline ticks rounds) l).memory.word.mutexes k).counts.inside
            ≤ bit
                ((run (start g lock_of n deadline ticks rounds) l).memory.word.mutexes
                  k).state.locked)
  guarded_exclusion k =
      let (rs, sound) = reachable in
      let inv = sound.inv.mutex k in
      let few =
        total_mono (λ (r : Mutex_Roles.Role). r.within) (λ r. r.holds) (suc n) (λ i. (rs i).locks k)
          inv.within in
      ground (arith, few, inv.inside, inv.holds)

  -- For any number of threads that wait on one condition variable, with deadlines and without, and
  -- notify it, each with its mutex, while a clock advances, and after every schedule, no thread is
  -- stopped by a failed assertion about a state word, of the condition variable or of a mutex, nor
  -- by the `expect` of `unpark_waiters` that there is a waiter; of the assertion of
  -- `unlock_and_unpark` that threads are queued nothing is said.
  pub condvar_words_hold :
      (i : ℕ) → i < n → (run (start g lock_of n deadline ticks rounds) l).thread i ≢ halt bad_word
  condvar_words_hold i lt e =
      let (rs, sound) = reachable in
      rw e at (Safe-Outcome (Sees condvar) (Moves condvar) Allowed (sound.safe i (omega arith)))

  -- For any number of threads that wait on one condition variable, with deadlines and without, and
  -- notify it, each with its mutex, while a clock advances, and after every schedule, the word of
  -- the condition variable has at most seven signals, and without a waiter it is EMPTY: there are
  -- neither signals nor QUEUE_LOCKED then. With waiters there may be signals without QUEUE_LOCKED.
  pub condvar_word-IsWord :
      IsWord (run (start g lock_of n deadline ticks rounds) l).memory.word.condvar
  condvar_word-IsWord = let (rs, sound) = reachable in sound.inv.word
