-- ===== src/Barrier/Client.antt =====
-- Threads that wait at one barrier again and again, and count their returns and the leaders.
use usync.Prelude.{ℕ, zero, suc, ◌+◌, if◌then◌else◌}
use usync.Prog.{skip, ◌>>=◌, ◌>>◌, System}
use usync.Shared.{Memory, count, fresh_memory, Config}
use usync.Barrier.{Word, new, Code, wait}

unfoldable pub waiter : Config → (me rounds : ℕ) → Code (Unit {0})
waiter g me zero = skip
waiter g me (suc k) = do
  is_leader ← wait g me
  if is_leader then (do count (λ c. record c { finished = c.finished + 1 }); skip) else skip
  count (λ c. record c { inside = c.inside + 1 })
  waiter g me k

abbrev pub start : Config → (size count rounds : ℕ) → System (Memory Word) (Unit {0})
start g size count rounds = record {
  count = count;
  memory = fresh_memory (new size);
  thread = λ i. waiter g (i + 1) rounds;
}

-- Threads that wait at one barrier again and again, and count the calls of `wait` that have begun
-- (`inside`) and those that have returned (`finished`).
unfoldable pub arriver : Config → (me rounds : ℕ) → Code (Unit {0})
arriver g me zero = skip
arriver g me (suc k) = do
  count (λ c. record c { inside = c.inside + 1 })
  is_leader ← wait g me
  count (λ c. record c { finished = c.finished + 1 })
  arriver g me k

abbrev pub arrivals : Config → (size count rounds : ℕ) → System (Memory Word) (Unit {0})
arrivals g size count rounds = record {
  count = count;
  memory = fresh_memory (new size);
  thread = λ i. arriver g (i + 1) rounds;
}
