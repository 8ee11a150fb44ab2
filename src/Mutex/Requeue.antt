-- ===== src/Mutex/Requeue.antt =====
-- Moving a waiter of a condition variable into the queue of the mutex keeps to the roles, whoever
-- does it and whatever it holds.
use usync.Prelude.{ℕ, zero, suc, not, ◌≡◌, refl}
use usync.Prog.Safe.{Safe}
use usync.Shared.{Config}
use usync.Shared.Protocol.{after, load-Keeps, quiet, if-Keeps, option-Keeps, may-Keep}
use usync.RwLock.State.{State}
use usync.RwLock.Lock.{try_requeue_loop, try_requeue}
use usync.Mutex.Roles.{Role, Ok, mutex}
use usync.Mutex.Wake.{EndsIn}
use usync.Mutex.Lock.{try_queue-Ok}

module _ (g : Config) (self me : ℕ) where
  try_requeue_loop-Ok :
      {r : Role} (f : ℕ) (s : State)
      → r.queue ≡ 0
      → Ok (EndsIn r) (try_requeue_loop g self me f s) r
  unfolding try_requeue_loop
  try_requeue_loop-Ok zero s has = Safe.halt tt
  try_requeue_loop-Ok (suc f) s has =
      if-Keeps mutex (not s.locked) (λ _. Safe.ret refl)
        λ _.
          after mutex _ (try_queue-Ok g self me s has)
            λ o r' e. rw e (option-Keeps mutex o (Safe.ret refl) λ s'. try_requeue_loop-Ok f s' has)

  pub try_requeue-Ok : {r : Role} → r.queue ≡ 0 → Ok (EndsIn r) (try_requeue g self me) r
  unfolding try_requeue
  try_requeue-Ok has =
      quiet mutex _ _ _ (λ c m. (refl, refl))
        λ flags. may-Keep mutex _ _ _ tt λ _.
          quiet mutex _ _ _ (λ c m. (refl, refl))
            λ waiting_on.
              may-Keep mutex _ _ _ tt
                λ _. load-Keeps mutex _ λ s k. try_requeue_loop-Ok g.fuel s has
