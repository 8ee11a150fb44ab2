-- ===== src/Condvar/Requeue.antt =====
-- The waiters that a condition variable lets go, woken up or requeued onto their mutexes.
use usync.Prelude.{ℕ, zero, suc, Option, some, ◌≡◌, ◌≢◌, refl, arith}
use usync.Prog.Safe.{Safe}
use usync.Shared.{Config, non_null}
use usync.Shared.Parker.Neutral.{unpark-Neutral}
use usync.Shared.Protocol.{neutral, quiet, if-Keeps, option-Keeps, assert-Keeps, expect-Keeps}
use usync.Mutex.Requeue.{try_requeue-Ok}
use usync.Condvar.{Word, init}
use usync.Condvar.Notify.{requeue_loop, unpark_requeue, unpark_waiters, unpark_all}
use usync.Condvar.Roles.{Role, IsWord, Ok, condvar, locked}
use usync.Condvar.Rules.{on_mutex-stays, Shift, holding, swap_word-Ok}

-- A thread that has no QUEUE_LOCKED bit of any mutex.
abbrev pub Calm : Role → Type 0
Calm r = (l : ℕ) → (r.locks l).queue ≡ 0

abbrev pub EndsIn : {A : Type 0} → Role → A → Role → Type 0
EndsIn r a r' = r' ≡ r

-- The role without the condition variable's QUEUE_LOCKED bit.
abbrev pub released : Role → Role
released r = holding r 0 0

-- Nobody has QUEUE_LOCKED of a word without waiters.
pub has_head : (w : Word) → IsWord w → locked w ≢ 0 → w.head ≢ 0
has_head w ok lock e = ground (arith, ok.no_lock e, lock)

-- Emptying the word, with the QUEUE_LOCKED bit.
pub empty_Shift : {r : Role} (w : Word) → locked w ≡ r.queue → Shift r w 0 0 init
empty_Shift w e = record {
  queue = omega arith;
  signals = omega arith;
  owned = omega arith;
  kept = λ other. absurd (other e);
  word = record { signals = omega arith; no_signal = λ _. refl; no_lock = λ _. refl };
}

module _ (g : Config) where
  pub requeue_loop-Ok :
      {r : Role} (f : ℕ) (o : Option ℕ) → Calm r → Ok (EndsIn r) (requeue_loop g f o) r
  unfolding requeue_loop
  requeue_loop-Ok zero o calm = Safe.halt tt
  requeue_loop-Ok {r} (suc f) o calm = option-Keeps condvar o (Safe.ret refl) λ w.
      quiet condvar _ _ _ (λ c m. (refl, refl))
        λ next.
          quiet condvar _ _ _ (λ c m. (refl, refl))
            λ waiting_on.
              expect-Keeps condvar _ waiting_on _ (λ _. tt)
                λ lock _. on_mutex-stays lock _ (try_requeue-Ok g lock w (calm lock)) λ requeued.
                  if-Keeps condvar requeued (λ _. requeue_loop-Ok f next calm)
                    λ _. neutral condvar _ (unpark-Neutral g w) λ _. requeue_loop-Ok f next calm

  pub unpark_requeue-Ok : {r : Role} (head : ℕ) → Calm r → Ok (EndsIn r) (unpark_requeue g head) r
  unfolding unpark_requeue
  unpark_requeue-Ok head calm = requeue_loop-Ok g.fuel (some head) calm

  -- A word with a waiter at its head.
  pub unpark_waiters-Ok :
      {r : Role} (w : Word) → w.head ≢ 0 → Calm r → Ok (EndsIn r) (unpark_waiters g w) r
  unfolding unpark_waiters
  unpark_waiters-Ok w ne calm =
      expect-Keeps condvar _ (non_null w.head) _ (λ e. ground (arith, ne, e))
        λ head _. unpark_requeue-Ok head calm

  -- Whoever wakes all waiters up gives QUEUE_LOCKED back.
  pub unpark_all-Ok :
      {r : Role} → r.queue ≡ 1 → r.signals ≢ 0 → Calm r → Ok (EndsIn (released r)) (unpark_all g) r
  unfolding unpark_all
  unpark_all-Ok {r} has some_signal calm =
      swap_word-Ok {r = r} (λ _. init) _
        λ w k. (
          0,
          0,
          empty_Shift w (ground (arith, k.queue, has)),
          assert-Keeps condvar _ _ _ (ground (arith, k.queue, has)) (
              assert-Keeps condvar _ _ _ (ground (arith, k.signals, some_signal))
                (unpark_waiters-Ok w (has_head w k.word (ground (arith, k.queue, has))) calm)),
        )
