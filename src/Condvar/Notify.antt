-- ===== src/Condvar/Notify.antt =====
-- src/condvar.rs: waking the waiters of a condition variable up.
use usync.Prelude.{
  ℕ, zero, suc, ◌+◌, ◌-◌, Bool, true, false, not, Option, none, some, ◌==◌, leb, ltb, if◌then◌else◌,
  match_option,
}
use usync.Prog.{ret, halt, skip, assert, expect, ◌>>=◌, ◌>>◌, bad_word, broken_queue, no_fuel}
use usync.Shared.{read, modify, load, fetch, cas_weak, Config, non_null}
use usync.Shared.Parker
use usync.Shared.Queue.{get_and_link_queue}
use usync.RwLock.Lock.{try_requeue}
use usync.Condvar.{Word, Code, init, same, is_empty, on_word, on_mutex}

abbrev pub load_word : Code Word
load_word = on_word load

abbrev pub cas_word : Word → Word → Code (Option Word)
cas_word old new = on_word (cas_weak same old new)

-- The word once the QUEUE_LOCKED bit is given back, and once it is taken.
abbrev pub without_lock : Word → Word
without_lock w = record w { queue_locked = false }

abbrev pub with_lock : Word → Word
with_lock w = record w { queue_locked = true }

-- The word that `unpark` proposes when it has scanned some waiters and leaves others in the queue:
-- `addr &= !QUEUE_LOCKED` and `addr -= signals.saturating_sub(scanned) * SIGNAL`.
abbrev pub dequeued : Word → ℕ → Word
dequeued w scanned = record w { signals = w.signals - (w.signals - scanned); queue_locked = false }

module _ (g : Config) where
  -- The loop of `unpark_requeue`.
  unfoldable pub requeue_loop : ℕ → Option ℕ → Code (Unit {0})
  requeue_loop zero waiters = halt no_fuel
  requeue_loop (suc f) waiters = match_option waiters skip λ w. do
    next ← read w (λ x. x.next)
    waiting_on ← read w (λ x. x.waiting_on)
    lock ← expect broken_queue waiting_on
    requeued ← on_mutex lock (try_requeue g lock w)
    if requeued then requeue_loop f next else (do Parker.unpark g w; requeue_loop f next)

  unfoldable pub unpark_requeue : ℕ → Code (Unit {0})
  unpark_requeue head = requeue_loop g.fuel (some head)

  unfoldable pub unpark_waiters : Word → Code (Unit {0})
  unpark_waiters w = do head ← expect bad_word (non_null w.head); unpark_requeue head

  unfoldable pub unpark_all : Code (Unit {0})
  unpark_all = do
    old ← on_word (fetch (λ _. init))
    assert bad_word old.queue_locked
    assert bad_word (not (old.signals == 0))
    unpark_waiters old

  -- The bounded scan of `unpark`, from the tail to the head.
  unfoldable pub scan : ℕ → (max_scan front scanned : ℕ) → Code (ℕ × ℕ)
  scan zero max_scan front scanned = halt no_fuel
  scan (suc f) max_scan front scanned = if leb max_scan scanned then ret (front, scanned) else do
    prev ← read front (λ x. x.prev)
    match_option prev (ret (front, scanned)) λ p. scan f max_scan p (scanned + 1)

  -- The part of a round of `unpark` that takes the waiters from `front` on off the queue: the word
  -- to go on with, if another thread was faster.
  unfoldable pub take_some : Word → (head tail front scanned new_tail : ℕ) → Code (Option Word)
  take_some w head tail front scanned new_tail = do
    modify head (λ x. record x { tail = some new_tail })
    modify new_tail (λ x. record x { next = none })
    e ← cas_word w (dequeued w scanned)
    match_option e (do unpark_requeue front; ret none)
        λ w'. do
          modify new_tail (λ x. record x { next = some front })
          modify head (λ x. record x { tail = some tail })
          ret (some w')

  -- The part that takes all of them.
  unfoldable pub take_all : Word → ℕ → Code (Option Word)
  take_all w head = do
    e ← cas_word w init
    match_option e (do unpark_requeue head; ret none) λ w'. ret (some w')

  -- `unpark`, with what it has scanned so far.
  unfoldable pub unpark_loop :
      ℕ → ℕ → (scanned : ℕ) → (unparked : Option ℕ) → Word → Code (Unit {0})
  unpark_loop zero also_wake scanned unparked w = halt no_fuel
  unpark_loop (suc f) also_wake scanned unparked w = do
    assert bad_word w.queue_locked
    if w.signals == 7 then unpark_all else do
      (head, tail, _) ← get_and_link_queue g.fuel w.head
      (front, scanned') ←
          match_option unparked (scan g.fuel (w.signals + also_wake) tail (scanned + 1))
            λ front. scan g.fuel (w.signals + also_wake) front scanned
      if leb 7 scanned' then unpark_all else do
        prev ← read front (λ x. x.prev)
        e ←
            match_option prev (take_all w head)
              λ new_tail. take_some w head tail front scanned' new_tail
        match_option e skip λ w'. unpark_loop f also_wake scanned' (some front) w'

  unfoldable pub unpark : Word → ℕ → Code (Unit {0})
  unpark w also_wake = unpark_loop g.fuel also_wake 0 none w

  unfoldable pub link_queue_or_unpark : ℕ → Word → Code (Unit {0})
  link_queue_or_unpark zero w = halt no_fuel
  link_queue_or_unpark (suc f) w = do
    assert bad_word w.queue_locked
    if ltb 0 w.signals then unpark w 0 else do
      _ ← get_and_link_queue g.fuel w.head
      e ← cas_word w (without_lock w)
      match_option e skip λ w'. link_queue_or_unpark f w'

  unfoldable pub notify_one_slow : ℕ → Word → Code Bool
  notify_one_slow zero w = halt no_fuel
  notify_one_slow (suc f) w =
      if is_empty w
      then ret false
      else if not w.queue_locked
      then (do
        e ← cas_word w (with_lock w)
        match_option e (do unpark (with_lock w) 1; ret true) λ w'. notify_one_slow f w')
      else if w.signals == 7
      then ret false
      else do
        e ← cas_word w (record w { signals = w.signals + 1 })
        match_option e (ret true) λ w'. notify_one_slow f w'

  unfoldable pub notify_one : Code Bool
  notify_one = do w ← load_word; if is_empty w then ret false else notify_one_slow g.fuel w

  unfoldable pub notify_all_slow : ℕ → Word → Code Bool
  notify_all_slow zero w = halt no_fuel
  notify_all_slow (suc f) w =
      if is_empty w
      then ret false
      else if not w.queue_locked
      then (do
        e ← cas_word w init
        match_option e (do unpark_waiters w; ret true) λ w'. notify_all_slow f w')
      else if w.signals == 7
      then ret false
      else do
        e ← cas_word w (record w { signals = 7 })
        match_option e (ret true) λ w'. notify_all_slow f w'

  unfoldable pub notify_all : Code Bool
  notify_all = do w ← load_word; if is_empty w then ret false else notify_all_slow g.fuel w
