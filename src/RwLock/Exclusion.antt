-- ===== src/RwLock/Exclusion.antt =====
-- Readers and writers exclude each other, for every number of threads and every interleaving, where
-- they take the lock without blocking.
use usync.Prelude.{
  ℕ, zero, suc, ◌+◌, ◌≤◌, ◌<◌, Bool, true, false, List, ◌≡◌, ◌≢◌, ◌⊎◌, inl, inr, refl,
  if◌then◌else◌, ◌==◌, Bool-cases, total-eq-zero, total_mono, arith,
}
use usync.Prog.{bad_word, not_queued, skip, run, halt}
use usync.Prog.Safe.{Safe, Sound, run-Sound, Safe-Outcome}
use usync.Shared.{fresh_memory, Config}
use usync.Shared.Protocol.{Sees, Moves, after, quiet, if-Keeps, count-Keeps}
use usync.RwLock.State.{unlocked}
use usync.RwLock.Roles.{Role, Allowed, Ok, shared_lock, Inv, Inv-Sees, Moves-Inv}
use usync.RwLock.Trying.{
  outside, writer, reader, Wrote, Read, EndsIn, try_lock_exclusive_fast-Ok, try_lock_shared-Ok,
}
use usync.RwLock.Releasing.{unlock_exclusive-Ok, unlock_shared-Ok}
use usync.RwLock.Client.{write_section, read_section, tryer, start}

module _ (g : Config) (self : ℕ) where
  write_section-Ok : Ok (EndsIn outside) (write_section g self) writer
  unfolding write_section
  write_section-Ok = count-Keeps shared_lock _ _ λ s c k w. (
    record writer { writing = 1 },
    ground (arith, k.writes, k.word.readers, k.word.held, k.word.queued, k.word.queue_locked),
    count-Keeps shared_lock _ _ λ s c k w. (
      writer,
      ground (arith, w.writers, k.word.readers, k.word.held, k.word.queued, k.word.queue_locked),
      unlock_exclusive-Ok g self,
    ),
  )

  read_section-Ok : Ok (EndsIn outside) (read_section g self) reader
  unfolding read_section
  read_section-Ok = count-Keeps shared_lock _ _ λ s c k w. (
    record reader { reading = 1 },
    ground (arith, k.reads, k.word.readers, k.word.held, k.word.queued, k.word.queue_locked),
    count-Keeps shared_lock _ _ λ s c k w. (
      reader,
      ground (arith, w.readers, k.word.readers, k.word.held, k.word.queued, k.word.queue_locked),
      unlock_shared-Ok g self,
    ),
  )

  Wrote-Ok :
      (got : Bool) (r : Role)
      → Wrote got r
      → Ok (EndsIn outside) (if got then write_section g self else skip) r
  Wrote-Ok true r e = rw e write_section-Ok
  Wrote-Ok false r e = Safe.ret e

  Read-Ok :
      (got : Bool) (r : Role)
      → Read got r
      → Ok (EndsIn outside) (if got then read_section g self else skip) r
  Read-Ok true r e = rw e read_section-Ok
  Read-Ok false r e = Safe.ret e

  tryer-Ok : (me rounds : ℕ) → Ok (EndsIn outside) (tryer g self me rounds) outside
  unfolding tryer
  tryer-Ok me zero = Safe.ret refl
  tryer-Ok me (suc k) =
      quiet shared_lock _ _ _ (λ c m. (refl, refl))
        λ reads.
          if-Keeps shared_lock reads
            (λ _.
              after shared_lock _ (try_lock_shared-Ok g self me)
                λ got r e. after shared_lock _ (Read-Ok got r e) λ _ r' e'. rw e' (tryer-Ok me k))
            λ _.
              after shared_lock _ (try_lock_exclusive_fast-Ok g)
                λ got r e. after shared_lock _ (Wrote-Ok got r e) λ _ r' e'. rw e' (tryer-Ok me k)

Inv-start : (n : ℕ) → Inv n (fresh_memory unlocked) (λ _. outside)
Inv-start n = record {
  writes = omega (arith, total-eq-zero (λ (r : Role). r.writes) n (λ _. outside) (λ _ _. refl));
  reads = total-eq-zero (λ (r : Role). r.reads) n _ (λ _ _. refl);
  word = ground arith;
  writing = λ i. omega arith;
  reading = λ i. omega arith;
  writers = total-eq-zero (λ (r : Role). r.writing) n _ (λ _ _. refl);
  readers = total-eq-zero (λ (r : Role). r.reading) n _ (λ _ _. refl);
}

module _ (g : Config) (self n rounds : ℕ) (l : List (ℕ × Bool)) where
  reachable :
      (rs : ℕ → Role) × Sound
        (Sees shared_lock)
        (Moves shared_lock)
        Allowed
        n
        (Inv n)
        (Inv-Sees n)
        (Moves-Inv n)
        (EndsIn outside)
        (run (start g self n rounds) l)
        rs
  reachable =
      run-Sound (Sees shared_lock) (Moves shared_lock) Allowed n (Inv n) (Inv-Sees n) (Moves-Inv n)
        (start g self n rounds) (λ _. outside) l
        (record {
          counted = refl;
          inv = Inv-start n;
          safe = λ i lt. tryer-Ok g self (i + 1) rounds;
        })

  -- For any number of threads that take the lock by `try_lock_exclusive` and `try_lock_shared` any
  -- number of times and release it again, on x86 or not, after every schedule at most one writer has
  -- the lock, no reader has it beside a writer, and the word counts at least the readers that have it.
  pub reader_writer_exclusion :
      ((run (start g self n rounds) l).memory.counts.inside ≤ 1)
      × (((run (start g self n rounds) l).memory.counts.inside ≡ 0)
          ⊎ ((run (start g self n rounds) l).memory.counts.finished ≡ 0))
      × ((run (start g self n rounds) l).memory.counts.finished
          ≤ (run (start g self n rounds) l).memory.word.remaining)
  reader_writer_exclusion =
      let (rs, sound) = reachable in
      let writers = total_mono (λ (r : Role). r.writing) (λ r. r.writes) n rs sound.inv.writing in
      let readers = total_mono (λ (r : Role). r.reading) (λ r. r.reads) n rs sound.inv.reading in
      let m = (run (start g self n rounds) l).memory in
      let one : m.counts.inside ≤ 1 =
        ground (arith, writers, sound.inv.writes, sound.inv.writers) in
      let counted : m.counts.finished ≤ m.word.remaining =
        omega (arith, readers, sound.inv.readers, sound.inv.reads) in
      let apart : (m.counts.inside ≡ 0) ⊎ (m.counts.finished ≡ 0) =
        elim (Bool-cases (m.counts.inside == 0)) [
          | inl no_writer ↦ inl (ground arith)
          | inr some_writer ↦ inr (
              ground (
                arith, some_writer, writers, counted, sound.inv.writes, sound.inv.writers,
                sound.inv.word.readers,
              ))
        ] in
      (one, apart, counted)

  -- For any number of threads that take the lock by `try_lock_exclusive` and `try_lock_shared` and
  -- release it again, on x86 or not, no thread is stopped by a failed assertion about the state word,
  -- after any schedule.
  pub flags_hold :
      (i : ℕ)
      → i < n
      → ((run (start g self n rounds) l).thread i ≢ halt bad_word)
        × ((run (start g self n rounds) l).thread i ≢ halt not_queued)
  flags_hold i lt =
      let (rs, sound) = reachable in
      let outcome = Safe-Outcome (Sees shared_lock) (Moves shared_lock) Allowed (sound.safe i lt) in
      (λ e. rw e at outcome, λ e. rw e at outcome)
