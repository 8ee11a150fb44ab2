-- ===== src/Condvar/Client.antt =====
-- Threads that use one condition variable with a mutex each, the same one or different ones, while
-- the time goes by.
use usync.Prelude.{ℕ, zero, suc, ◌+◌, ◌*◌, ltb, if◌then◌else◌}
use usync.Prog.{skip, choose, write, ◌>>=◌, ◌>>◌, System}
use usync.Shared.{Memory, fresh_memory, no_counts, Config}
use usync.Mutex
use usync.Mutex.Client.{critical}
use usync.Condvar.{Words, Code, init, on_mutex}
use usync.Condvar.Notify.{notify_one, notify_all}
use usync.Condvar.Wait.{wait, wait_until}

-- What the environment chooses: notify one waiter or all of them.
unfoldable pub notify : Config → Code (Unit {0})
notify g = do one ← choose; _ ← if one then notify_one g else notify_all g; skip

-- What it chooses with the mutex held: wait without end or up to the deadline, or notify.
unfoldable pub event : Config → (lock me inner deadline : ℕ) → Code (Unit {0})
event g lock me inner deadline = do
  waits ← choose
  if waits
      then (do
        for_ever ← choose
        if for_ever
            then wait g lock me inner
            else (do _ ← wait_until g lock me inner deadline; skip))
      else notify g

-- `rounds` times: a critical section before and one after the event, and a notification without the
-- mutex.
unfoldable pub worker : Config → (lock me inner deadline rounds : ℕ) → Code (Unit {0})
worker g lock me inner deadline zero = skip
worker g lock me inner deadline (suc k) = do
  on_mutex lock (Mutex.lock g lock inner)
  on_mutex lock critical
  event g lock me inner deadline
  on_mutex lock critical
  on_mutex lock (Mutex.unlock g lock inner)
  notify g
  worker g lock me inner deadline k

-- It lets the time go on, `ticks` times.
unfoldable pub clock : (ticks : ℕ) → Code (Unit {0})
clock zero = skip
clock (suc k) = do write (λ m. record m { clock = m.clock + 1 }); clock k

-- The first `count` threads use the condition variable, and one more is the clock. Thread i uses
-- the mutex `lock_of i`, and the waiters 2 * i + 1 and 2 * i + 2.
abbrev pub threads :
    Config → (lock_of : ℕ → ℕ) → (count deadline ticks rounds : ℕ) → ℕ → Code (Unit {0})
threads g lock_of count deadline ticks rounds i =
    if ltb i count
    then worker g (lock_of i) (2 * i + 1) (2 * i + 2) deadline rounds
    else clock ticks

abbrev pub start :
    Config
    → (lock_of : ℕ → ℕ) → (count deadline ticks rounds : ℕ) → System (Memory Words) (Unit {0})
start g lock_of count deadline ticks rounds = record {
  count = suc count;
  memory =
      fresh_memory (record {
        condvar = init;
        mutexes = λ l. record { state = Mutex.init; counts = no_counts };
      });
  thread = threads g lock_of count deadline ticks rounds;
}
