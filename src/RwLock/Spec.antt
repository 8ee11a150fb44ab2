-- ===== src/RwLock/Spec.antt =====
-- src/rwlock.rs, without contention: what a lock is for a caller that finds no waiters.
use usync.Prelude.{
  ℕ, zero, suc, ◌+◌, ◌*◌, ◌^◌, Bool, true, false, Option, none, some, if◌then◌else◌, match_option,
  List, [], ◌∷◌, ltb,
}
use usync.Prog.{ret, ◌>>=◌, ◌>>◌}
use usync.Shared.{Config}
use usync.RwLock.State.{State, unlocked, write_locked}
use usync.RwLock.Wake.{Code}
use usync.RwLock.Lock.{try_lock_exclusive_fast, lock_exclusive, try_lock_shared, lock_shared}
use usync.RwLock.Unlock.{is_locked, is_locked_exclusive, unlock_exclusive, unlock_shared}

-- Nobody holds the lock, a writer does, or some readers: `reading n` has one more than `n`.
pub data Holder : Type 0 where
  free : Holder
  writing : Holder
  reading : ℕ → Holder

-- The operations of `lock_api::RawRwLock`.
pub data Operation : Type 0 where
  asks_locked : Operation
  asks_locked_exclusive : Operation
  tries_exclusive : Operation
  locks_exclusive : Operation
  unlocks_exclusive : Operation
  tries_shared : Operation
  locks_shared : Operation
  unlocks_shared : Operation

-- One reader more, as long as the count fits.
abbrev pub one_more : ℕ → Option (Holder × Bool) → Option (Holder × Bool)
one_more n full = if ltb (16 * n + 35) (2 ^ 64) then some (reading (n + 1), true) else full

-- What an operation does, and answers; `none` if it blocks, or is not the caller's to make.
abbrev pub promise : Operation → Holder → Option (Holder × Bool)
promise asks_locked free = some (free, false)
promise asks_locked writing = some (writing, true)
promise asks_locked (reading n) = some (reading n, true)
promise asks_locked_exclusive free = some (free, false)
promise asks_locked_exclusive writing = some (writing, true)
promise asks_locked_exclusive (reading n) = some (reading n, false)
promise tries_exclusive free = some (writing, true)
promise tries_exclusive writing = some (writing, false)
promise tries_exclusive (reading n) = some (reading n, false)
promise locks_exclusive free = some (writing, true)
promise locks_exclusive writing = none
promise locks_exclusive (reading n) = none
promise unlocks_exclusive free = none
promise unlocks_exclusive writing = some (free, true)
promise unlocks_exclusive (reading n) = none
promise tries_shared free = some (reading 0, true)
promise tries_shared writing = some (writing, false)
promise tries_shared (reading n) = one_more n (some (reading n, false))
promise locks_shared free = some (reading 0, true)
promise locks_shared writing = none
promise locks_shared (reading n) = one_more n none
promise unlocks_shared free = none
promise unlocks_shared writing = none
promise unlocks_shared (reading zero) = some (free, true)
promise unlocks_shared (reading (suc n)) = some (reading n, true)

-- The code of an operation. Those that return nothing answer true.
unfoldable pub perform : Config → (self me : ℕ) → Operation → Code Bool
perform g self me asks_locked = is_locked
perform g self me asks_locked_exclusive = is_locked_exclusive
perform g self me tries_exclusive = try_lock_exclusive_fast g
perform g self me locks_exclusive = do lock_exclusive g self me; ret true
perform g self me unlocks_exclusive = do unlock_exclusive g self; ret true
perform g self me tries_shared = try_lock_shared g self me
perform g self me locks_shared = do lock_shared g self me; ret true
perform g self me unlocks_shared = do unlock_shared g self; ret true

-- Any number of operations, with their answers.
abbrev pub promises : List Operation → Holder → Option (Holder × List Bool)
promises [] h = some (h, [])
promises (o ∷ os) h =
    match_option (promise o h) none
      λ (h', b). match_option (promises os h') none λ (h'', bs). some (h'', b ∷ bs)

unfoldable pub perform_all : Config → (self me : ℕ) → List Operation → Code (List Bool)
perform_all g self me [] = ret []
perform_all g self me (o ∷ os) = do
  b ← perform g self me o
  bs ← perform_all g self me os
  ret (b ∷ bs)

-- The state word of a holder.
abbrev pub word_of : Holder → State
word_of free = unlocked
word_of writing = write_locked
word_of (reading n) = record {
  locked = true;
  reading = true;
  queued = false;
  queue_locked = false;
  remaining = n + 1;
}
