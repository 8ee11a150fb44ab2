-- ===== src/Mutex.antt =====
-- src/mutex.rs: the mutex is the lock of src/rwlock.rs, taken exclusively only.
pub mod Roles
pub mod Rules
pub mod Wake
pub mod Lock
pub mod Unlock
pub mod Requeue
pub mod Client
pub mod Exclusion
use usync.Prelude.{ℕ, zero, suc, ◌+◌, ◌-◌, Bool, true, false, if◌then◌else◌}
use usync.Prog.{Prog, ret, write, skip, choose, ◌>>=◌, ◌>>◌}
use usync.Shared.{Memory, Config}
use usync.RwLock.State.{State, unlocked}
use usync.RwLock.Wake.{Code}
use usync.RwLock.Lock.{lock_exclusive, try_lock_exclusive_fast}
use usync.RwLock.Unlock.{unlock_exclusive, is_locked_exclusive}

-- `RawMutex::INIT`
abbrev pub init : State
init = unlocked

unfoldable pub is_locked : Code Bool
is_locked = is_locked_exclusive

module _ (g : Config) (self me : ℕ) where
  unfoldable pub lock : Code (Unit {0})
  lock = lock_exclusive g self me

  unfoldable pub try_lock : Code Bool
  try_lock = try_lock_exclusive_fast g

  unfoldable pub unlock : Code (Unit {0})
  unlock = unlock_exclusive g self
