-- ===== src/RwLock/Client.antt =====
-- Threads that try to take one lock again and again, shared or exclusively, and count themselves
-- among the writers (`inside`) or the readers (`finished`) while they have it.
use usync.Prelude.{ℕ, zero, suc, ◌+◌, ◌-◌, if◌then◌else◌}
use usync.Prog.{skip, choose, ◌>>=◌, ◌>>◌, System}
use usync.Shared.{Memory, fresh_memory, count, Config}
use usync.RwLock.State.{State, unlocked}
use usync.RwLock.Wake.{Code}
use usync.RwLock.Lock.{try_lock_exclusive_fast, try_lock_shared}
use usync.RwLock.Unlock.{unlock_exclusive, unlock_shared}

unfoldable pub write_section : Config → (self : ℕ) → Code (Unit {0})
write_section g self = do
  count (λ c. record c { inside = c.inside + 1 })
  count (λ c. record c { inside = c.inside - 1 })
  unlock_exclusive g self

unfoldable pub read_section : Config → (self : ℕ) → Code (Unit {0})
read_section g self = do
  count (λ c. record c { finished = c.finished + 1 })
  count (λ c. record c { finished = c.finished - 1 })
  unlock_shared g self

-- `rounds` times, as a reader where the environment so chooses.
unfoldable pub tryer : Config → (self me rounds : ℕ) → Code (Unit {0})
tryer g self me zero = skip
tryer g self me (suc k) = do
  reads ← choose
  if reads
      then (do
        got ← try_lock_shared g self me
        if got then read_section g self else skip
        tryer g self me k)
      else do
        got ← try_lock_exclusive_fast g
        if got then write_section g self else skip
        tryer g self me k

abbrev pub start : Config → (self count rounds : ℕ) → System (Memory State) (Unit {0})
start g self count rounds = record {
  count = count;
  memory = fresh_memory unlocked;
  thread = λ i. tryer g self (i + 1) rounds;
}
