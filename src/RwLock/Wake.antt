-- ===== src/RwLock/Wake.antt =====
-- src/rwlock.rs: waking the waiters of the lock up. `self` is the number by which a waiter's
-- `waiting_on` names this lock. Each loop takes fuel for its rounds.
use usync.Prelude.{
  ℕ, zero, suc, true, false, ◌&&◌, not, Option, none, some, ◌==◌, if◌then◌else◌, match_option,
}
use usync.Prog.{Prog, ret, expect, halt, skip, assert, ◌>>=◌, ◌>>◌, bad_word, broken_queue, no_fuel}
use usync.Shared.{Memory, read, modify, load, fetch, cas_weak, Config}
use usync.Shared.Parker.{park}
use usync.Shared.Parker
use usync.Shared.Queue.{get_and_link_queue}
use usync.RwLock.State.{State, same, minus}

abbrev pub Code : Type 0 → Type 0
Code A = Prog (Memory State) A

module _ (g : Config) (self : ℕ) where
  unfoldable pub unpark_waiters_loop : ℕ → ℕ → Code (Unit {0})
  unpark_waiters_loop zero tail = halt no_fuel
  unpark_waiters_loop (suc f) tail = do
    waiting_on ← read tail (λ w. w.waiting_on)
    waiting_on ← expect broken_queue waiting_on
    assert broken_queue (waiting_on == self)
    prev ← read tail (λ w. w.prev)
    Parker.unpark g tail
    match_option prev skip λ p. unpark_waiters_loop f p

  -- `unpark_waiters`: from the tail to the head.
  unfoldable pub unpark_waiters : ℕ → Code (Unit {0})
  unfolding unpark_waiters_loop
  unpark_waiters tail = unpark_waiters_loop g.fuel tail

  -- The last part of a round of `unpark`: take the whole queue off the word and wake it up; what
  -- the word was if that fails.
  unfoldable pub wake_all : State → ℕ → Code (Option State)
  wake_all state tail = do
    e ← cas_weak same state (record state { remaining = 0; queued = false; queue_locked = false })
    match_option e (do unpark_waiters tail; ret none) λ s. ret (some s)

  -- The first part of that round, when the waiter at the tail is a writer and not alone: wake only
  -- that one up.
  unfoldable pub wake_one : (head tail new_tail : ℕ) → Code (Option State)
  wake_one head tail new_tail = do
    modify head (λ w. record w { tail = some new_tail })
    _ ← fetch (minus 8)
    modify tail (λ w. record w { prev = none })
    unpark_waiters tail
    ret none

  -- A round of `unpark` whose word is not locked.
  unfoldable pub wake : State → Code (Option State)
  wake state = do
    (head, tail, _) ← get_and_link_queue g.fuel state.remaining
    flags ← read tail (λ w. w.flags)
    if flags == 0 then wake_all state tail else do
      prev ← read tail (λ w. w.prev)
      match_option prev (wake_all state tail) λ new_tail. wake_one head tail new_tail

  -- The round when somebody has locked the word: leave the rest to the holder.
  unfoldable pub release_queue : State → Code (Option State)
  release_queue state = do e ← cas_weak same state (record state { queue_locked = false }); ret e

  -- `unpark`. A round returns `none` when it is done, and else the word to go on with.
  unfoldable pub unpark_loop : ℕ → State → Code (Unit {0})
  unpark_loop zero state = halt no_fuel
  unpark_loop (suc f) state = do
    assert bad_word state.queued
    assert bad_word state.queue_locked
    e ← if state.locked then release_queue state else wake state
    match_option e skip λ s. unpark_loop f s

  unfoldable pub unpark : State → Code (Unit {0})
  unpark state = unpark_loop g.fuel state

  -- `try_unpark` (x86)
  unfoldable pub try_unpark_loop : ℕ → State → Code (Unit {0})
  try_unpark_loop zero state = halt no_fuel
  try_unpark_loop (suc f) state =
      if not state.locked && state.queued && not state.queue_locked
      then (do
        e ← cas_weak same state (record state { queue_locked = true })
        match_option e (unpark (record state { queue_locked = true })) λ s. try_unpark_loop f s)
      else skip

  unfoldable pub try_unpark : Code (Unit {0})
  try_unpark = do state ← load; try_unpark_loop g.fuel state

  -- `link_queue_or_unpark`
  unfoldable pub link_queue_or_unpark_loop : ℕ → State → Code (Unit {0})
  link_queue_or_unpark_loop zero state = halt no_fuel
  link_queue_or_unpark_loop (suc f) state = do
    assert bad_word state.queued
    assert bad_word state.queue_locked
    if not state.locked then unpark state else do
      _ ← get_and_link_queue g.fuel state.remaining
      e ← cas_weak same state (record state { queue_locked = false })
      match_option e skip λ s. link_queue_or_unpark_loop f s

  unfoldable pub link_queue_or_unpark : State → Code (Unit {0})
  link_queue_or_unpark state = link_queue_or_unpark_loop g.fuel state
