-- ===== src/Barrier.antt =====
-- src/barrier.rs: the barrier.
pub mod Roles
pub mod Still
pub mod Waking
pub mod Wait
pub mod Client
pub mod Leader
pub mod Count
pub mod Arrival
use usync.Prelude.{
  ℕ, zero, suc, ◌+◌, ◌-◌, ◌%◌, ◌^◌, Bool, true, false, ◌&&◌, not, Option, none, some, ◌≡◌, ◌==◌,
  bool_eq, bool_eq_iff, if◌then◌else◌, match_option, length, arith,
}
use usync.Prog.{
  Prog, ret, halt, skip, assert, expect, ◌>>=◌, ◌>>◌, bad_word, not_completed, broken_queue,
  no_fuel,
}
use usync.Shared.{Waiter, new_waiter, Memory, read, modify, load, fetch, cas_weak, Config, non_null}
use usync.Shared.Parker.{park}
use usync.Shared.Parker
use usync.Shared.Queue.{get_and_link_queue}

-- The state word: without QUEUED the count, shifted by COUNT_SHIFT = 1; with QUEUED the waiter at
-- the head of the queue, and whether QUEUE_LOCKED is set.
pub data Word : Type 0 where
  counting : ℕ → Word
  waiting : (head : ℕ) → (queue_locked : Bool) → Word

-- COMPLETED
abbrev pub completed : Word
completed = counting 0

abbrev pub same : Word → Word → Bool
same (counting a) (counting b) = a == b
same (waiting a j) (waiting b k) = a == b && bool_eq j k
same (counting a) (waiting b k) = false
same (waiting a j) (counting b) = false

pub same_eq : (v w : Word) → same v w ≡ true → v ≡ w
same_eq (counting a) (counting b) h = ground arith
same_eq (waiting a j) (waiting b k) h = ground arith
same_eq (counting a) (waiting b k) h = ground arith
same_eq (waiting a j) (counting b) h = ground arith

abbrev pub is_completed : Word → Bool
is_completed w = same w completed

-- QUEUED, and QUEUE_LOCKED beside it
abbrev pub is_queued : Word → Bool
is_queued (counting n) = false
is_queued (waiting h k) = true

abbrev pub is_queue_locked : Word → Bool
is_queue_locked (counting n) = false
is_queue_locked (waiting h k) = k

-- The bits of Waiter::MASK of a word with QUEUED.
abbrev pub pointer : Word → ℕ
pointer (counting n) = 0
pointer (waiting h k) = h

abbrev pub without_lock : Word → Word
without_lock (counting n) = counting n
without_lock (waiting h k) = waiting h false

abbrev pub Code : Type 0 → Type 0
Code A = Prog (Memory Word) A

-- `Barrier::new`: the shift drops the highest bit of a `usize`.
unfoldable pub new : ℕ → Word
new n = counting (n % 2 ^ 63)

-- `checked_sub(1)`
abbrev pub pred : ℕ → Option ℕ
pred zero = none
pred (suc n) = some n

module _ (g : Config) where
  -- The loop of `complete`.
  unfoldable pub wake_loop : ℕ → Option ℕ → Code (Unit {0})
  wake_loop zero waiters = halt no_fuel
  wake_loop (suc f) waiters =
      match_option waiters skip
        λ w. do next ← read w (λ w. w.next); Parker.unpark g w; wake_loop f next

  unfoldable pub complete : Code Bool
  complete = do
    old ← fetch (λ _. completed)
    assert bad_word (is_queued old)
    assert bad_word (is_queue_locked old)
    wake_loop g.fuel (non_null (pointer old))
    ret true

  unfoldable pub link_queue_or_complete : ℕ → Word → Code Bool
  link_queue_or_complete zero w = halt no_fuel
  link_queue_or_complete (suc f) w = do
    assert bad_word (is_queued w)
    assert bad_word (is_queue_locked w)
    (_, tail, discovered) ← get_and_link_queue g.fuel (pointer w)
    counter ← read tail (λ x. x.counter)
    modify tail (λ x. record x { counter = counter - length discovered })
    if counter - length discovered == 0 then complete else do
      e ← cas_weak same w (without_lock w)
      match_option e (ret false) λ w'. link_queue_or_complete f w'

  module _ (me : ℕ) where
    -- What a round of `wait_slow` writes into the waiter, and the word that it proposes.
    unfoldable pub prepare : Word → Code Word
    prepare (counting n) = do
      counter ← expect bad_word (pred n)
      modify me (λ x. record x { counter = counter; next = none; tail = some me })
      ret (waiting me false)
    prepare (waiting head k) = do
      modify me (λ x. record x { next = non_null head; tail = none })
      ret (waiting me true)

    -- What follows once the waiter is queued.
    unfoldable pub queued : Word → Code Bool
    queued w = do
      led ←
          if is_queued w && not (is_queue_locked w)
          then link_queue_or_complete g.fuel (waiting me true)
          else ret false
      if led then ret true else do
        woken ← park g me none
        assert broken_queue woken
        w' ← load
        assert not_completed (is_completed w')
        ret false

    -- The loop of `wait_slow`.
    unfoldable pub wait_loop : ℕ → Word → Code Bool
    wait_loop zero w = halt no_fuel
    wait_loop (suc f) w =
        if is_completed w
        then ret false
        else if same w (counting 1)
        then (do e ← cas_weak same w completed; match_option e (ret true) λ w'. wait_loop f w')
        else do
          next ← prepare w
          e ← cas_weak same w next
          match_option e (queued w) λ w'. wait_loop f w'

    unfoldable pub wait_slow : Word → Code Bool
    wait_slow w = do modify me (λ _. new_waiter); wait_loop g.fuel w

    -- `wait`; the result is `is_leader`.
    unfoldable pub wait : Code Bool
    wait = do w ← load; if is_completed w then ret false else wait_slow w
