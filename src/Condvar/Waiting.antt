-- ===== src/Condvar/Waiting.antt =====
-- Waiting at a condition variable keeps to the roles: the mutex is given up and owned again.
use usync.Prelude.{
  ℕ, zero, suc, Bool, true, false, ◌&&◌, not, Option, none, some, ◌≡◌, ◌≢◌, refl, ◌==◌, update_self,
  inl, inr, if◌then◌else◌, leb, bit, sym, update_back, Bool-cases, arith,
}
use usync.Prog.{broken_queue, skip, halt, ◌>>=◌}
use usync.Prog.Safe.{Safe}
use usync.Shared.{Config}
use usync.Shared.Parker.{park}
use usync.Shared.Parker.Neutral.{park-Neutral}
use usync.Shared.Neutral.{last_assert-Neutral}
use usync.Shared.Protocol.{after, neutral, neutral_alone, quiet, if-Keeps}
use usync.Condvar.{Word, on_mutex}
use usync.Mutex
use usync.Condvar.Notify.{load_word, link_queue_or_unpark, notify_all}
use usync.Condvar.Wait.{queue_word, push_loop, wait_with, wait, wait_for, wait_until}
use usync.Condvar.Roles.{Role, Ok, condvar}
use usync.Condvar.Rules.{KnowsWord, Shift, holding, at_lock, on_mutex-Ok, load_word-Ok, cas_word-Ok}
use usync.Condvar.Requeue.{Calm, EndsIn}
use usync.Condvar.Unpark.{read_Shift, read_Knows, link_queue_or_unpark-Ok}
use usync.Condvar.Notifying.{Free, still_Shift, still-Ok, notify_all-Ok}
use usync.Mutex.Roles as Mutex_Roles
use usync.Mutex.Lock.{owner}
use usync.Mutex.Exclusion.{lock-Ok, unlock-Ok}

module _ (g : Config) (lock me inner : ℕ) (real : me ≢ 0) where
  -- A thread that has queued its waiter, with QUEUE_LOCKED or without.
  abbrev Pushed : Role → Bool → Role → Type 0
  Pushed r b r' = r' ≡ holding r (bit b) 0

  push_Shift :
      {r : Role} (w : Word)
      → Free r
      → KnowsWord r w
      → Shift r w (bit (not (w.head == 0) && not w.queue_locked)) 0 (queue_word g lock me inner w)
  push_Shift w free k = record {
    queue = ground (arith, free.queue, k.word.no_lock);
    signals = omega arith;
    owned = omega arith;
    kept = λ other. omega arith;
    word = record {
      signals = k.word.signals;
      no_signal = λ e. absurd (real e);
      no_lock = λ e. absurd (real e);
    };
  }

  push_loop-Ok :
      (f : ℕ) {r : Role} (w : Word) → Free r → Ok (Pushed r) (push_loop g lock me inner f w) r
  unfolding push_loop
  push_loop-Ok zero w free = Safe.halt tt
  push_loop-Ok (suc f) {r} w free =
      quiet condvar _ _ _ (λ c m. (refl, refl))
        λ _.
          cas_word-Ok {r = r} w (queue_word g lock me inner w) _
            (λ k. (
              bit (not (w.head == 0) && not w.queue_locked),
              0,
              push_Shift w free k,
              Safe.ret refl,
            ))
            λ w' k. (0, 0, still_Shift w' free k, still-Ok free (push_loop-Ok f w' free))

  -- The role of a thread that has given the mutex up.
  abbrev away : Role → Role
  away r = at_lock lock Mutex_Roles.outside (holding r 0 0)

  away-Free : {r : Role} → Free r → Free (away r)
  away-Free free = record {
    calm = λ l. elim (Bool-cases (lock == l)) [
      | inl here ↦ rw here refl
      | inr other ↦ rw other (free.calm l)
    ];
    queue = refl;
    signals = refl;
  }

  -- Taking the mutex again restores the role.
  back : {r : Role} → Free r → r.locks lock ≡ owner → at_lock lock owner (away r) ≡ r
  back {r} free own = λ i. record {
    locks = update_back r.locks lock Mutex_Roles.outside owner own i;
    queue = sym free.queue i;
    signals = sym free.signals i;
  }

  -- The queue is linked, by the thread that has taken QUEUE_LOCKED for that.
  link-Ok :
      (b : Bool) (r : Role)
      → Calm r
      → Ok
          (EndsIn (holding r 0 0))
          (if b then load_word >>= (λ w. link_queue_or_unpark g g.fuel w) else skip)
          (holding r (bit b) 0)
  link-Ok true r calm = load_word-Ok {r = holding r 1 0} _ λ w k. (
    1,
    w.signals,
    read_Shift g w refl k,
    link_queue_or_unpark-Ok g g.fuel {r = holding r 1 w.signals} w refl refl calm
        (read_Knows g w refl k),
  )
  link-Ok false r calm = Safe.ret refl

  -- After a timeout all waiters are woken up, this one too.
  timeout-Ok :
      (woken : Bool) (r : Role)
      → Free r
      → r.locks lock ≡ Mutex_Roles.outside
      → Ok
          (EndsIn r)
          (if woken
            then skip
            else notify_all g >>= λ _. park g me none >>= λ woken.
                if woken
                then skip
                else on_mutex lock (Mutex.lock g lock inner) >>= λ _. halt broken_queue)
          r
  timeout-Ok true r free out = Safe.ret refl
  timeout-Ok false r free out = after condvar _ (notify_all-Ok g free) λ _ r' e. rw e (
      neutral condvar _ (park-Neutral g me none) λ woken.
        if-Keeps condvar woken (λ _. Safe.ret refl)
          λ _. on_mutex-Ok lock _ owner (rw out (lock-Ok g lock inner)) λ _. Safe.halt tt)

  -- Whatever the other threads do meanwhile within the protocol of the condition variable and the
  -- mutexes, a thread that owns the mutex, no QUEUE_LOCKED bit and nothing of the condition variable
  -- owns the mutex again, and just what it has owned before, when its wait returns, whether after a
  -- timeout or not; no assertion on a word fails on the way.
  pub wait_with-Ok :
      {r : Role} (timeout : Option ℕ)
      → Free r
      → r.locks lock ≡ owner
      → Ok (EndsIn r) (wait_with g lock me inner timeout) r
  unfolding wait_with
  wait_with-Ok {r} timeout free own =
      quiet condvar _ _ _ (λ c m. (refl, refl))
        λ _. load_word-Ok {r = r} _ λ w k. (
          0,
          0,
          still_Shift w free k,
          still-Ok free (
              after condvar _ (push_loop-Ok g.fuel w free) λ b r' e. rw e (
                on_mutex-Ok lock _ Mutex_Roles.outside (rw own (unlock-Ok g lock me)) λ _.
                  after condvar _
                    (link-Ok b (at_lock lock Mutex_Roles.outside r) (away-Free free).calm)
                    λ _ r'' e'. rw e' (
                      neutral condvar _ (park-Neutral g me timeout) λ woken.
                        after condvar _
                          (timeout-Ok woken (away r) (away-Free free)
                            (update_self r.locks lock Mutex_Roles.outside))
                          λ _ r3 e3. rw e3 (
                            on_mutex-Ok lock _ owner
                              (rw (update_self r.locks lock Mutex_Roles.outside)
                                (lock-Ok g lock inner))
                              λ _. Safe.ret (back free own))))),
        )

  pub wait-Ok : {r : Role} → Free r → r.locks lock ≡ owner → Ok (EndsIn r) (wait g lock me inner) r
  unfolding wait
  wait-Ok {r} free own =
      after condvar _ (wait_with-Ok none free own) λ timed_out r' e.
        rw e (neutral_alone condvar (last_assert-Neutral (not timed_out)) λ _. refl)

  pub wait_until-Ok :
      {r : Role} (deadline : ℕ)
      → Free r
      → r.locks lock ≡ owner
      → Ok (EndsIn r) (wait_until g lock me inner deadline) r
  unfolding wait_until wait_for
  wait_until-Ok {r} deadline free own =
      quiet condvar _ _ _ (λ c m. (refl, refl))
        λ now.
          if-Keeps condvar (leb now deadline) (λ _. wait_with-Ok (some _) free own)
            λ _. Safe.ret refl
