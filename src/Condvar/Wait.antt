-- ===== src/Condvar/Wait.antt =====
-- src/condvar.rs: waiting at a condition variable. `me` is the waiter of the thread there; `inner`
-- is the waiter that it uses to take the mutex again, while the other one still exists.
use usync.Prelude.{
  ℕ, zero, suc, ◌-◌, Bool, true, ◌&&◌, ◌||◌, not, Option, none, some, ◌==◌, leb, if◌then◌else◌,
  match_option,
}
use usync.Prog.{ret, halt, look, skip, assert, ◌>>=◌, ◌>>◌, broken_queue, no_fuel}
use usync.Shared.{new_waiter, modify, Config, non_null}
use usync.Shared.Parker.{park}
use usync.Mutex
use usync.Condvar.{Word, Code, on_mutex}
use usync.Condvar.Notify.{load_word, cas_word, link_queue_or_unpark, notify_all}

module _ (g : Config) (lock me inner : ℕ) where
  -- The word with the waiter in front of the queue.
  abbrev pub queue_word : Word → Word
  queue_word w = record w { queue_locked = w.queue_locked || not (w.head == 0); head = me }

  -- The loop that queues the waiter: whether it has taken the QUEUE_LOCKED bit.
  unfoldable pub push_loop : ℕ → Word → Code Bool
  push_loop zero w = halt no_fuel
  push_loop (suc f) w = do
    modify me
        (λ x. record x { next = non_null w.head; tail = if w.head == 0 then some me else none })
    e ← cas_word w (queue_word w)
    match_option e (ret (not (w.head == 0) && not w.queue_locked)) λ w'. push_loop f w'

  -- The mutex is taken again by the drop of `DropGuard`, at the end and when the assertion of the
  -- function itself fails.
  unfoldable pub wait_with : Option ℕ → Code Bool
  wait_with timeout = do
    modify me (λ _. record new_waiter { flags = 1; waiting_on = some lock })
    w ← load_word
    signal_locked ← push_loop g.fuel w
    on_mutex lock (Mutex.unlock g lock me)
    if signal_locked then (do w' ← load_word; link_queue_or_unpark g g.fuel w') else skip
    woken ← park g me timeout
    if woken then skip else do
      _ ← notify_all g
      woken ← park g me none
      if woken then skip else (do on_mutex lock (Mutex.lock g lock inner); halt broken_queue)
    on_mutex lock (Mutex.lock g lock inner)
    ret (not woken)

  unfoldable pub wait : Code (Unit {0})
  wait = do timed_out ← wait_with none; assert broken_queue (not timed_out)

  unfoldable pub wait_for : ℕ → Code Bool
  wait_for timeout = wait_with (some timeout)

  unfoldable pub wait_until : ℕ → Code Bool
  wait_until deadline = do
    now ← look (λ m. m.clock)
    if leb now deadline then wait_for (deadline - now) else ret true
