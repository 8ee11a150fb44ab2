-- ===== src/RwLock/Releasing.antt =====
-- Releasing the lock keeps to the roles where nobody waits.
use usync.Prelude.{
  Bool-cases, inl, inr, ℕ, zero, suc, ◌-◌, Bool, true, false, ◌≡◌, refl, if◌then◌else◌, arith,
}
use usync.Prog.{assert, skip, ◌>>=◌}
use usync.Prog.Safe.{Safe}
use usync.Shared.{Counts, Config, load}
use usync.Shared.Protocol.{
  after, load-Keeps, if-Keeps, assert-Keeps, fetch-Keeps, cas_weak-Keeps, cas-Keeps,
  cas_strong-Keeps,
}
use usync.RwLock.State.{State, unlocked, write_locked, single_reader, same, minus}
use usync.RwLock.State.Bits.{minus_locked}
use usync.RwLock.Unlock.{unlock_exclusive, unlock_shared_fast, unlock_shared_slow, unlock_shared}
use usync.RwLock.Roles.{Role, Knows, Step, Step-refl, Ok, shared_lock}
use usync.RwLock.Trying.{outside, writer, reader, EndsIn}

-- The word of a writer.
writer_word : (s : State) → Knows writer s → s ≡ write_locked
writer_word s k = ground (arith, k.writes, k.word.readers, k.word.queued, k.word.queue_locked)

-- The last reader leaves the word unlocked.
leave_Step :
    (s : State) (c : Counts)
    → Knows reader s
    → Step reader s c outside
        (if same s single_reader then unlocked else record s { remaining = s.remaining - 1 })
        c
leave_Step s c k = elim (Bool-cases (same s single_reader)) [
  | inl last ↦ rw last (ground (arith, last))
  | inr more ↦ rw more (
      ground
        (arith, more, k.reads, k.word.readers, k.word.held, k.word.queued, k.word.queue_locked))
]

module _ (g : Config) (self : ℕ) where
  unlock_shared_fast-Ok :
      Ok (λ done r. r ≡ (if done then outside else reader)) (unlock_shared_fast g self) reader
  unfolding unlock_shared_fast
  unlock_shared_fast-Ok = load-Keeps shared_lock _ λ s k.
      if-Keeps shared_lock (same s single_reader)
        (λ _.
          cas-Keeps shared_lock _ _ _ (λ c k f. (outside, ground arith, Safe.ret {a = true} refl))
            λ s c k f. (reader, Step-refl reader s c k f, Safe.ret {a = false} refl))
        λ _. Safe.ret {a = false} refl

  pub unlock_exclusive-Ok : Ok (EndsIn outside) (unlock_exclusive g self) writer
  unfolding unlock_exclusive ◌>>=◌ assert
  unlock_exclusive-Ok =
      if-Keeps shared_lock g.x86
        (λ _. fetch-Keeps shared_lock _ _ λ s c k f.
          let e : s ≡ write_locked = writer_word s k in
          let e' : minus 1 s ≡ record s { locked = false } = minus_locked s (ground (arith, e)) in
          (outside, rw e' (ground (arith, e)), rw e (Safe.ret refl)))
        λ _.
          cas_strong-Keeps shared_lock _ _ _ (λ c k f. (outside, ground arith, Safe.ret refl))
            λ s c other k f. absurd (let e = writer_word s k in ground (arith, other, e))

  -- The words that a reader finds.
  pub unlock_shared_slow-Ok :
      (n : ℕ) (s : State)
      → Knows reader s
      → Ok (EndsIn outside) (unlock_shared_slow g self n s) reader
  unfolding unlock_shared_slow
  unlock_shared_slow-Ok zero s k = Safe.halt tt
  unlock_shared_slow-Ok (suc n) s k =
      if-Keeps shared_lock s.queued (λ h. absurd (ground (arith, h, k.word.queued)))
        λ _. assert-Keeps shared_lock _ _ _ (ground (arith, k.reads, k.word.readers, k.word.held)) (
          assert-Keeps shared_lock _ _ _ (ground (arith, k.reads, k.word.readers, k.word.held)) (
            assert-Keeps shared_lock _ _ _ (ground (arith, k.reads)) (
              cas_weak-Keeps shared_lock _ _ _
                (λ c k' f. (outside, leave_Step s c k', Safe.ret refl))
                λ s' c k' f. (reader, Step-refl reader s' c k' f, unlock_shared_slow-Ok n s' k'))))

  fast-Ok :
      (done : Bool) (r : Role)
      → r ≡ (if done then outside else reader)
      → Ok
          (EndsIn outside)
          (if done then skip else load >>= λ s. unlock_shared_slow g self g.fuel s)
          r
  fast-Ok true r e = Safe.ret e
  fast-Ok false r e = rw e (load-Keeps shared_lock _ λ s k. unlock_shared_slow-Ok g.fuel s k)

  pub unlock_shared-Ok : Ok (EndsIn outside) (unlock_shared g self) reader
  unfolding unlock_shared
  unlock_shared-Ok = after shared_lock _ unlock_shared_fast-Ok λ done r e. fast-Ok done r e
