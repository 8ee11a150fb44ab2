-- ===== src/Mutex/Unlock.antt =====
-- Releasing the lock keeps to the roles: who returns from `unlock` owns nothing.
use usync.Prelude.{ℕ, zero, suc, true, false, refl, if◌then◌else◌, arith}
use usync.Prog.Safe.{Safe}
use usync.Shared.{Config}
use usync.RwLock.State.{State}
use usync.RwLock.State.Bits.{minus_locked}
use usync.RwLock.Unlock.{unlock_and_unpark_loop, unlock_and_unpark, unlock_exclusive, should_unpark}
use usync.Mutex.Roles.{outside, Knows, Ok, mutex}
use usync.Mutex.Rules.{fetch-Ok, cas_weak-Ok, cas-Ok}
use usync.Shared.Protocol.{load-Keeps, if-Keeps, assert-Keeps, may-Keep}
use usync.Mutex.Wake.{EndsIn, try_unpark-Ok, unpark-Ok}
use usync.Mutex.Lock.{owner, queue_owner, both-Ok}

module _ (g : Config) (self : ℕ) where
  unlock_and_unpark_loop-Ok :
      (f : ℕ) (s : State)
      → Knows owner s
      → Ok (EndsIn outside) (unlock_and_unpark_loop g self f s) owner
  unfolding unlock_and_unpark_loop
  unlock_and_unpark_loop-Ok zero s k = Safe.halt tt
  unlock_and_unpark_loop-Ok (suc f) s k = assert-Keeps mutex _ _ _ (ground (arith, k.holds)) (
      may-Keep mutex _ _ _ tt λ queued.
        cas_weak-Ok _ _ _
          (λ k w. (
            if s.queue_locked then outside else queue_owner,
            ground arith,
            ground (arith, k.holds, k.queued),
            both-Ok s.queue_locked (λ _. Safe.ret refl)
                λ e.
                  unpark-Ok g self {r = queue_owner}
                    (record s { locked = false; reading = false; queue_locked = true }) refl
                    (record {
                      holds = omega arith;
                      queue = omega arith;
                      no_reader = refl;
                      queued = ground arith;
                    }),
          ))
          λ s' k'. unlock_and_unpark_loop-Ok f s' k')

  unlock_and_unpark-Ok : Ok (EndsIn outside) (unlock_and_unpark g self) owner
  unfolding unlock_and_unpark
  unlock_and_unpark-Ok = load-Keeps mutex _ λ s k. unlock_and_unpark_loop-Ok g.fuel s k

  -- Whatever the other threads do meanwhile within the protocol of the mutex, an owner of the lock
  -- that returns from `unlock_exclusive` owns neither the lock nor QUEUE_LOCKED any more, and no
  -- assertion fails on the way but those on waiters and on there being some.
  pub unlock_exclusive-Ok : Ok (EndsIn outside) (unlock_exclusive g self) owner
  unfolding unlock_exclusive
  unlock_exclusive-Ok =
      if-Keeps mutex g.x86
        (λ _. fetch-Ok _ _ λ s k w. (
          outside,
          refl,
          rw (minus_locked s (ground (arith, k.holds)))
              (ground (arith, k.holds, k.queued, k.no_reader)),
          assert-Keeps mutex _ _ _ (ground (arith, k.holds, k.no_reader)) (
              if-Keeps mutex (should_unpark g self s) (λ _. try_unpark-Ok g self refl)
                λ _. Safe.ret refl),
        ))
        λ _.
          cas-Ok _ _ _ (λ k w. (outside, refl, ground arith, Safe.ret refl))
            λ s k. unlock_and_unpark-Ok
