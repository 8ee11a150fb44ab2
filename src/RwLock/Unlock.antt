-- ===== src/RwLock/Unlock.antt =====
-- src/rwlock.rs: releasing the lock, exclusive and shared, and asking for its state.
use usync.Prelude.{
  ℕ, zero, suc, ◌-◌, Bool, true, false, ◌&&◌, not, ◌==◌, if◌then◌else◌, match_option,
}
use usync.Prog.{
  ret, access, halt, skip, assert, ◌>>=◌, ◌>>◌, bad_word, not_queued, broken_queue, no_fuel,
}
use usync.Shared.{with_waiter, load, fetch, cas, cas_weak, Config}
use usync.Shared.Pointer.{wrapping_sub}
use usync.Shared.Queue.{get_and_link_queue}
use usync.RwLock.State.{State, unlocked, write_locked, single_reader, same, minus}
use usync.RwLock.Wake.{Code, unpark, try_unpark}

-- `is_locked` and `is_locked_exclusive`
unfoldable pub is_locked : Code Bool
is_locked = do state ← load; ret state.locked

unfoldable pub is_locked_exclusive : Code Bool
is_locked_exclusive = do state ← load; ret (state.locked && not state.reading)

module _ (g : Config) (self : ℕ) where
  -- `unlock_and_unpark` (not on x86)
  unfoldable pub unlock_and_unpark_loop : ℕ → State → Code (Unit {0})
  unlock_and_unpark_loop zero state = halt no_fuel
  unlock_and_unpark_loop (suc f) state = do
    assert bad_word state.locked
    assert not_queued state.queued
    e ← cas_weak same state (record state { locked = false; reading = false; queue_locked = true })
    match_option e
        (if state.queue_locked
          then skip
          else unpark g self
              (record state { locked = false; reading = false; queue_locked = true }))
        λ s. unlock_and_unpark_loop f s

  unfoldable pub unlock_and_unpark : Code (Unit {0})
  unlock_and_unpark = do state ← load; unlock_and_unpark_loop g.fuel state

  -- Whether the thread that released the lock wakes a waiter up (x86).
  abbrev pub should_unpark : State → Bool
  should_unpark old = old.queued && not old.queue_locked

  -- `unlock_exclusive_fast` for x86. The assertion is one of debug builds.
  abbrev pub subtract_locked : Code (Unit {0})
  subtract_locked = do
    old ← fetch (minus 1)
    assert bad_word (old.locked && not old.reading)
    if should_unpark old then try_unpark g self else skip

  -- `unlock_exclusive_fast` for other targets
  abbrev pub exchange_locked : Code (Unit {0})
  exchange_locked = do
    e ← cas same write_locked unlocked
    match_option e skip λ _. unlock_and_unpark

  -- `unlock_exclusive`, which is `unlock_exclusive_fast` of the target
  unfoldable pub unlock_exclusive : Code (Unit {0})
  unlock_exclusive = if g.x86 then subtract_locked else exchange_locked

  -- `unlock_shared_and_unpark` for x86
  abbrev pub subtract_read_locked : Code (Unit {0})
  subtract_read_locked = do
    old ← fetch (minus 3)
    assert bad_word (old.locked && old.reading)
    if should_unpark old then try_unpark g self else skip

  -- `unlock_shared_and_unpark` of the target; that of the others is `unlock_and_unpark`
  unfoldable pub unlock_shared_and_unpark : Code (Unit {0})
  unlock_shared_and_unpark = if g.x86 then subtract_read_locked else unlock_and_unpark

  -- `unlock_shared_fast`
  unfoldable pub unlock_shared_fast : Code Bool
  unlock_shared_fast = do
    state ← load
    if same state single_reader
        then (do e ← cas same single_reader unlocked; match_option e (ret true) λ _. ret false)
        else ret false

  -- The second half of `unlock_shared_slow`: the count of readers is at the tail of the queue.
  unfoldable pub unlock_shared_queued : State → Code (Unit {0})
  unlock_shared_queued state = do
    assert bad_word state.locked
    assert bad_word state.queued
    assert bad_word state.reading
    (_, tail, _) ← get_and_link_queue g.fuel state.remaining
    readers ←
        access (λ c. with_waiter tail (λ w. record w { counter = wrapping_sub w.counter 1 }))
          (λ c m. (m.heap tail).counter)
    assert broken_queue (not (readers == 0))
    if readers == 1 then unlock_shared_and_unpark else skip

  -- `unlock_shared_slow`: while no thread waits, count down in the word.
  unfoldable pub unlock_shared_slow : ℕ → State → Code (Unit {0})
  unlock_shared_slow zero state = halt no_fuel
  unlock_shared_slow (suc f) state = if state.queued then unlock_shared_queued state else do
    assert bad_word state.locked
    assert bad_word state.reading
    assert bad_word (not (state.remaining == 0))
    e ← cas_weak same state (
        if same state single_reader
        then unlocked
        else record state { remaining = state.remaining - 1 })
    match_option e skip λ s. unlock_shared_slow f s

  -- `unlock_shared`
  unfoldable pub unlock_shared : Code (Unit {0})
  unlock_shared = do
    done ← unlock_shared_fast
    if done then skip else do state ← load; unlock_shared_slow g.fuel state
