-- ===== src/Once/Client.antt =====
-- Threads that each call one `Once`, with closures that count how they run.
use usync.Prelude.{ℕ, ◌+◌, ◌-◌, Bool, true, false, if◌then◌else◌}
use usync.Prog.{ret, choose, ◌>>=◌, ◌>>◌, System}
use usync.Shared.{Memory, count, fresh_memory, Config}
use usync.Once.{Word, init, OnceState, Code, call_once, call_once_force}

-- A closure that the environment may let panic. It counts itself as running, and as finished when
-- it returns.
unfoldable pub closure : OnceState → Code Bool
closure s = do
  count (λ c. record c { inside = c.inside + 1 })
  panics ← choose
  if panics
      then (do count (λ c. record c { inside = c.inside - 1 }); ret false)
      else do count (λ c. record { inside = c.inside - 1; finished = c.finished + 1 }); ret true

-- A thread: `call_once`, or `call_once_force` where the environment so chooses.
unfoldable pub client : Config → (me : ℕ) → Code (Unit {0})
client g me = do
  force ← choose
  if force then call_once_force g me closure else call_once g me closure

abbrev pub start : Config → (count : ℕ) → System (Memory Word) (Unit {0})
start g count = record { count = count; memory = fresh_memory init; thread = λ i. client g (i + 1) }
