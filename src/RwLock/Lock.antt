-- ===== src/RwLock/Lock.antt =====
-- src/rwlock.rs: taking the lock, exclusive and shared.
use usync.Prelude.{
  ℕ, zero, suc, Bool, true, false, ◌&&◌, ◌||◌, not, Option, none, some, ◌==◌, if◌then◌else◌,
  match_option, bit,
}
use usync.Prog.{ret, halt, skip, assert, ◌>>=◌, ◌>>◌, broken_queue, no_fuel}
use usync.Shared.{Waiter, new_waiter, read, modify, load, fetch, cas, cas_weak, Config, non_null}
use usync.Shared.Spin.{SpinWait, fresh, try_yield_now, yield_now}
use usync.Shared.Parker.{park}
use usync.RwLock.State.{State, unlocked, write_locked, same, add_reader}
use usync.RwLock.Wake.{Code, link_queue_or_unpark}

-- `try_lock_exclusive_assuming` for targets other than x86
unfoldable pub try_lock_exclusive_loop : ℕ → State → Code Bool
try_lock_exclusive_loop zero state = halt no_fuel
try_lock_exclusive_loop (suc f) state = if state.locked then ret false else do
  e ← cas_weak same state (record state { locked = true })
  match_option e (ret true) λ s. try_lock_exclusive_loop f s

-- `try_lock_exclusive_fast` for x86
abbrev pub set_locked : Code Bool
set_locked = do old ← fetch (λ s. record s { locked = true }); ret (not old.locked)

-- `try_lock_exclusive_fast` for other targets
abbrev pub exchange_unlocked : Code Bool
exchange_unlocked = do e ← cas same unlocked write_locked; match_option e (ret true) λ _. ret false

-- `try_lock_exclusive`, which is `try_lock_exclusive_fast` of the target
unfoldable pub try_lock_exclusive_fast : Config → Code Bool
try_lock_exclusive_fast g = if g.x86 then set_locked else exchange_unlocked

-- `try_lock_exclusive_assuming` of the target
unfoldable pub try_lock_exclusive_assuming : Config → State → Code Bool
try_lock_exclusive_assuming g state =
    if g.x86 then try_lock_exclusive_fast g else try_lock_exclusive_loop g.fuel state

-- `try_lock_shared_assuming`: `none` if the lock cannot be taken, and else the result of the
-- compare-exchange, `some none` for `Some(Ok(_))`.
abbrev pub may_read : State → Bool
may_read s = same s unlocked || (s.locked && s.reading && not s.queued)

unfoldable pub try_lock_shared_assuming : State → Code (Option (Option State))
unfolding add_reader
try_lock_shared_assuming state =
    if not (may_read state)
    then ret none
    else match_option (add_reader state) (ret none) λ with_reader. do
      e ← cas_weak same state (record with_reader { locked = true; reading = true })
      ret (some e)

-- `try_lock_shared_fast`
unfoldable pub try_lock_shared_fast : Code Bool
try_lock_shared_fast = do
  state ← load
  result ← try_lock_shared_assuming state
  match_option result (ret false) λ e. match_option e (ret true) λ _. ret false

-- `try_lock_shared_slow`
unfoldable pub try_lock_shared_slow : ℕ → State → Code Bool
try_lock_shared_slow zero state = halt no_fuel
try_lock_shared_slow (suc f) state = do
  result ← try_lock_shared_assuming state
  match_option result (ret false) λ e. match_option e (ret true) λ s. try_lock_shared_slow f s

-- `try_lock` of `lock_exclusive_slow` and of `lock_shared_slow`: `none` if the lock is taken, and
-- else whether the caller has got it.
unfoldable pub try_lock : Config → Bool → State → Code (Option Bool)
try_lock g true state =
    if state.locked then ret none else do got ← try_lock_exclusive_assuming g state; ret (some got)
try_lock g false state = do
  result ← try_lock_shared_assuming state
  match_option result (ret none) λ e. match_option e (ret (some true)) λ _. ret (some false)

module _ (g : Config) (self me : ℕ) where
  -- What `try_queue` writes into the waiter, and the word that it proposes.
  unfoldable pub queue_first : State → Waiter → Waiter
  queue_first state w = record w {
    counter = state.remaining;
    prev = none;
    next = none;
    tail = some me;
  }

  unfoldable pub queue_next : State → Waiter → Waiter
  queue_next state w = record w { prev = none; next = non_null state.remaining; tail = none }

  abbrev pub queue_word : State → State
  queue_word state =
      if state.queued
      then record state { queued = true; queue_locked = true; remaining = me }
      else record state { queued = true; remaining = me }

  -- `try_queue`: `none` if the waiter is queued, and else the word that was found.
  unfoldable pub try_queue : State → Code (Option State)
  unfolding queue_first queue_next
  try_queue state = do
    modify me (if state.queued then queue_next state else queue_first state)
    e ← cas_weak same state (queue_word state)
    match_option e
        (if state.queued && not state.queue_locked
          then (do link_queue_or_unpark g self (queue_word state); ret none)
          else ret none)
        λ s. ret (some s)

  -- `while let Some(was_locked) = try_lock(state)`: `none` when the lock is taken, and the word
  -- with which to queue if it is held.
  unfoldable pub try_phase : ℕ → Bool → State → SpinWait → Code (Option State)
  unfolding yield_now
  try_phase zero is_writer state backoff = halt no_fuel
  try_phase (suc f) is_writer state backoff = do
    t ← try_lock g is_writer state
    match_option t (ret (some state)) λ was_locked.
        if was_locked
        then ret none
        else do s ← load; try_phase f is_writer s (yield_now g.multi_core backoff).0

  -- Whether to spin once more: not if threads are waiting.
  unfoldable pub spin_on : State → SpinWait → SpinWait × Bool
  unfolding try_yield_now
  spin_on state spin = if state.queued then (spin, false) else try_yield_now g.multi_core spin

  -- The loops of `lock_common`, at a word just read.
  unfoldable pub lock_loop : ℕ → Bool → State → SpinWait → Code (Unit {0})
  lock_loop zero is_writer state spin = halt no_fuel
  lock_loop (suc f) is_writer state spin = do
    t ← try_phase g.fuel is_writer state fresh
    match_option t skip λ state'.
        if (spin_on state' spin).1
        then (do s ← load; lock_loop f is_writer s (spin_on state' spin).0)
        else do
          e ← try_queue state'
          match_option e
              (do
                woken ← park g me none
                assert broken_queue woken
                s ← load
                lock_loop f is_writer s (spin_on state' spin).0)
              λ s. lock_loop f is_writer s (spin_on state' spin).0

  unfoldable pub lock_common : Bool → Code (Unit {0})
  lock_common is_writer = do
    modify me (λ _. new_waiter)
    modify me (λ w. record w { waiting_on = some self })
    modify me (λ w. record w { flags = bit is_writer })
    state ← load
    lock_loop g.fuel is_writer state fresh

  -- `lock_exclusive`, with `lock_exclusive_slow`
  unfoldable pub lock_exclusive : Code (Unit {0})
  lock_exclusive = do got ← try_lock_exclusive_fast g; if got then skip else lock_common true

  -- `lock_shared`, with `lock_shared_slow`
  unfoldable pub lock_shared : Code (Unit {0})
  lock_shared = do got ← try_lock_shared_fast; if got then skip else lock_common false

  -- `try_lock_shared`
  unfoldable pub try_lock_shared : Code Bool
  try_lock_shared = do
    got ← try_lock_shared_fast
    if got then ret true else do state ← load; try_lock_shared_slow g.fuel state

  -- `try_requeue`: a waiter of a condition variable is put into the queue of its mutex, unless it
  -- could take the lock.
  unfoldable pub try_requeue_loop : ℕ → State → Code Bool
  try_requeue_loop zero state = halt no_fuel
  try_requeue_loop (suc f) state =
      if not state.locked
      then ret false
      else do e ← try_queue state; match_option e (ret true) λ s. try_requeue_loop f s

  unfoldable pub try_requeue : Code Bool
  try_requeue = do
    flags ← read me (λ w. w.flags)
    assert broken_queue (not (flags == 0))
    waiting_on ← read me (λ w. w.waiting_on)
    assert broken_queue (match_option waiting_on false λ l. l == self)
    state ← load
    try_requeue_loop g.fuel state
