-- ===== src/Mutex/Client.antt =====
-- Threads that take the mutex again and again, blocking or not, and count themselves inside.
use usync.Prelude.{ℕ, zero, suc, ◌+◌, ◌-◌, if◌then◌else◌}
use usync.Prog.{skip, choose, ◌>>=◌, ◌>>◌, System}
use usync.Shared.{Memory, fresh_memory, count, Config}
use usync.RwLock.Wake.{Code}
use usync.RwLock.State.{State}
use usync.Mutex.{init, lock, try_lock, unlock}

unfoldable pub critical : Code (Unit {0})
critical = do
  count (λ c. record c { inside = c.inside + 1 })
  count (λ c. record c { inside = c.inside - 1 })
  skip

-- `rounds` times: take the mutex by `lock`, or by `try_lock` where the environment so chooses.
unfoldable pub worker : Config → (self me rounds : ℕ) → Code (Unit {0})
worker g self me zero = skip
worker g self me (suc k) = do
  blocking ← choose
  if blocking then (do lock g self me; critical; unlock g self me; worker g self me k) else do
    got ← try_lock g self me
    if got then (do critical; unlock g self me; worker g self me k) else worker g self me k

-- Thread i waits on waiter i + 1.
abbrev pub start : Config → (self count rounds : ℕ) → System (Memory State) (Unit {0})
start g self count rounds = record {
  count = count;
  memory = fresh_memory init;
  thread = λ i. worker g self (i + 1) rounds;
}
