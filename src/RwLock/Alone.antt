-- ===== src/RwLock/Alone.antt =====
-- One operation of the lock, run alone without contention, against what the abstract lock promises.
use usync.Prelude.{
  ℕ, zero, suc, ◌+◌, ◌-◌, ◌*◌, ◌^◌, Bool, true, false, Option, none, some, ◌≡◌, refl, inl, inr, ltb,
  ◌==◌, Bool-cases, ap, ◌∙◌, arith,
}
use usync.Prog.{ret, solo, ◌>>=◌, access, assert}
use usync.Prog.Solo.{resume, solo-bind}
use usync.Shared.{Memory, Config}
use usync.RwLock.State.{State, add_reader, address, minus}
use usync.RwLock.State.Bits.{add_reader_lem}
use usync.RwLock.Lock.{
  try_lock_exclusive_fast, lock_exclusive, try_lock_shared_assuming, try_lock_shared_fast,
  try_lock_shared_slow, try_lock_shared, lock_shared,
}
use usync.RwLock.Unlock.{
  is_locked, is_locked_exclusive, unlock_exclusive, unlock_shared_fast, unlock_shared_slow,
  unlock_shared,
}
use usync.RwLock.Spec.{
  Holder, free, writing, reading, Operation, asks_locked, asks_locked_exclusive, tries_exclusive,
  locks_exclusive, unlocks_exclusive, tries_shared, locks_shared, unlocks_shared, promise, perform,
  word_of,
}

-- Whether an operation, run alone at a holder, leaves the promised word and gives the promised
-- answer.
abbrev pub Kept :
    Config → (self me : ℕ) → Memory State → Operation → Holder → Option (Holder × Bool) → Type 0
Kept g self me m o h none = Unit
Kept g self me m o h (some (h', b)) =
    solo (perform g self me o) (record m { word = word_of h })
    ≡ (record m { word = word_of h' }, inl b)

module _ (g : Config) (self me : ℕ) (m : Memory State) where
  asks-Kept : (h : Holder) → Kept g self me m asks_locked h (promise asks_locked h)
  unfolding perform is_locked solo ◌>>=◌ access
  asks-Kept free = refl
  asks-Kept writing = refl
  asks-Kept (reading n) = refl

abbrev readers : ℕ → State
readers r = record (word_of (reading 0)) { remaining = r }

equal : (n : ℕ) → (n == n) ≡ true
equal n = ground arith

add_one :
    (n : ℕ)
    → ltb (16 * n + 35) (2 ^ 64) ≡ true
    → add_reader (readers (n + 1)) ≡ some (readers (n + 1 + 1))
unfolding address
add_one n fits = rw (add_reader_lem (readers (n + 1))) (ground (arith, fits))

add_none : (n : ℕ) → ltb (16 * n + 35) (2 ^ 64) ≡ false → add_reader (readers (n + 1)) ≡ none
unfolding address
add_none n full = rw (add_reader_lem (readers (n + 1))) (ground (arith, full))

module _ (multi_core : Bool) (fuel self me : ℕ) (m : Memory State) where
  abbrev cfg : Bool → Config
  cfg x = record { x86 = x; multi_core = multi_core; fuel = suc fuel }

  exclusive-Kept :
      (x : Bool) (h : Holder) → Kept (cfg x) self me m tries_exclusive h (promise tries_exclusive h)
  unfolding perform try_lock_exclusive_fast solo ◌>>=◌ access
  exclusive-Kept true free = refl
  exclusive-Kept true writing = refl
  exclusive-Kept true (reading n) = refl
  exclusive-Kept false free = refl
  exclusive-Kept false writing = refl
  exclusive-Kept false (reading n) = refl

  lock-Kept :
      (x : Bool) (h : Holder) → Kept (cfg x) self me m locks_exclusive h (promise locks_exclusive h)
  unfolding perform lock_exclusive try_lock_exclusive_fast solo ◌>>=◌ access
  lock-Kept true free = refl
  lock-Kept false free = refl
  lock-Kept x writing = tt
  lock-Kept x (reading n) = tt

  unlock-Kept :
      (x : Bool) (h : Holder)
      → Kept (cfg x) self me m unlocks_exclusive h (promise unlocks_exclusive h)
  unfolding perform unlock_exclusive minus assert solo ◌>>=◌ access
  unlock-Kept x free = tt
  unlock-Kept true writing = refl
  unlock-Kept false writing = refl
  unlock-Kept x (reading n) = tt

  share_one :
      (r r' : ℕ)
      → add_reader (readers r) ≡ some (readers r')
      → solo try_lock_shared_fast (record m { word = readers r })
        ≡ (record m { word = readers r' }, inl true)
  unfolding try_lock_shared_fast try_lock_shared_assuming solo ◌>>=◌ access
  share_one r r' added = rw (added, solo, ◌>>=◌, equal r) refl

  share_none :
      (x : Bool) (r : ℕ)
      → add_reader (readers r) ≡ none
      → solo (try_lock_shared (cfg x) self me) (record m { word = readers r })
        ≡ (record m { word = readers r }, inl false)
  unfolding try_lock_shared try_lock_shared_fast try_lock_shared_slow try_lock_shared_assuming solo
      ◌>>=◌ access
  share_none x r full = rw (full, solo, ◌>>=◌, full) refl

  shared-Kept :
      (x : Bool) (h : Holder) → Kept (cfg x) self me m tries_shared h (promise tries_shared h)
  unfolding perform try_lock_shared try_lock_shared_fast try_lock_shared_slow
      try_lock_shared_assuming solo ◌>>=◌ access resume
  shared-Kept x free = refl
  shared-Kept x writing = refl
  shared-Kept x (reading n) = elim (Bool-cases (ltb (16 * n + 35) (2 ^ 64))) [
    | inl fits ↦
        rw
          (
            fits,
            solo-bind try_lock_shared_fast _ (record m { word = readers (n + 1) }),
            share_one (n + 1) (n + 1 + 1) (add_one n fits),
          )
          refl
    | inr full ↦ rw full (share_none x (n + 1) (add_none n full))
  ]

  lock_one :
      (x : Bool) (r r' : ℕ)
      → add_reader (readers r) ≡ some (readers r')
      → solo (lock_shared (cfg x) self me) (record m { word = readers r })
        ≡ (record m { word = readers r' }, inl tt)
  unfolding lock_shared solo resume
  lock_one x r r' added =
      rw (solo-bind try_lock_shared_fast _ (record m { word = readers r }), share_one r r' added)
        refl

  waits-Kept :
      (x : Bool) (h : Holder) → Kept (cfg x) self me m locks_shared h (promise locks_shared h)
  unfolding perform lock_shared try_lock_shared_fast try_lock_shared_assuming solo ◌>>=◌ access
      resume
  waits-Kept x free = refl
  waits-Kept x writing = tt
  waits-Kept x (reading n) = elim (Bool-cases (ltb (16 * n + 35) (2 ^ 64))) [
    | inl fits ↦ rw fits (
        solo-bind (lock_shared (cfg x) self me) (λ _. ret true)
          (record m { word = readers (n + 1) })
        ∙ ap (resume (λ _. ret true)) (lock_one x (n + 1) (n + 1 + 1) (add_one n fits)))
    | inr full ↦ rw full tt
  ]

  release_some :
      (x : Bool) (r r' : ℕ)
      → (r == 1) ≡ false
      → (r == 0) ≡ false
      → r - 1 ≡ r'
      → solo (unlock_shared (cfg x) self) (record m { word = readers r })
        ≡ (record m { word = readers r' }, inl tt)
  unfolding unlock_shared unlock_shared_fast unlock_shared_slow assert solo ◌>>=◌ access
  release_some x r r' many some_left e = rw (many, solo, ◌>>=◌, some_left, equal r, many, e) refl

  unshared-Kept :
      (x : Bool) (h : Holder) → Kept (cfg x) self me m unlocks_shared h (promise unlocks_shared h)
  unfolding perform unlock_shared unlock_shared_fast unlock_shared_slow assert solo ◌>>=◌ access
      resume
  unshared-Kept x free = tt
  unshared-Kept x writing = tt
  unshared-Kept x (reading zero) = refl
  unshared-Kept x (reading (suc n)) =
      solo-bind (unlock_shared (cfg x) self) (λ _. ret true)
        (record m { word = readers (suc n + 1) })
      ∙ ap (resume (λ _. ret true))
          (release_some x (suc n + 1) (n + 1) (ground arith) (ground arith) (omega arith))

  asks-exclusive-Kept :
      (x : Bool) (h : Holder)
      → Kept (cfg x) self me m asks_locked_exclusive h (promise asks_locked_exclusive h)
  unfolding perform is_locked_exclusive solo ◌>>=◌ access
  asks-exclusive-Kept x free = refl
  asks-exclusive-Kept x writing = refl
  asks-exclusive-Kept x (reading n) = refl

-- What follows the kept promise of one operation.
pub kept :
    (x86 multi_core : Bool) (fuel self me : ℕ) (m : Memory State) (o : Operation) (h : Holder)
    → Kept
        (record { x86 = x86; multi_core = multi_core; fuel = suc fuel })
        self
        me
        m
        o
        h
        (promise o h)
kept x mc f self me m asks_locked h = asks-Kept _ self me m h
kept x mc f self me m asks_locked_exclusive h = asks-exclusive-Kept mc f self me m x h
kept x mc f self me m tries_exclusive h = exclusive-Kept mc f self me m x h
kept x mc f self me m locks_exclusive h = lock-Kept mc f self me m x h
kept x mc f self me m unlocks_exclusive h = unlock-Kept mc f self me m x h
kept x mc f self me m tries_shared h = shared-Kept mc f self me m x h
kept x mc f self me m locks_shared h = waits-Kept mc f self me m x h
kept x mc f self me m unlocks_shared h = unshared-Kept mc f self me m x h
