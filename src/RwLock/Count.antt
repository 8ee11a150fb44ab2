-- ===== src/RwLock/Count.antt =====
-- src/rwlock.rs: how a reader leaves while others wait, alone with the queue. The count of readers is
-- then kept by the waiter at the tail.
use usync.Prelude.{
  ℕ, suc, ◌-◌, ◌≤◌, true, false, List, [], ◌≡◌, ◌≢◌, refl, inl, ◌==◌, not, length, if◌then◌else◌,
  Bool-cases, inr, ap, ◌∙◌, ltb, arith,
}
use usync.Prog.{broken_queue, solo, skip, ◌>>=◌, ◌>>◌, access, assert}
use usync.Prog.Solo.{resume, solo-bind}
use usync.Shared.{Memory, with_waiter, Config}
use usync.Shared.Pointer.{wrapping_sub}
use usync.Shared.Queue.{get_and_link_queue}
use usync.Shared.Queue.Linked.{Queue, linked, onto, get_and_link_queue_lem, counter-linked}
use usync.RwLock.State.{State}
use usync.RwLock.Wake.{Code}
use usync.RwLock.Unlock.{unlock_shared_queued, unlock_shared_and_unpark}

-- A reader less at the tail.
abbrev pub one_less : ℕ → Memory State → Memory State
one_less t m = with_waiter t (λ x. record x { counter = x.counter - 1 }) m

-- What `unlock_shared_queued` does with the queue that it has linked.
abbrev after_link : Config → ℕ → ℕ × ℕ × List ℕ → Code (Unit {0})
after_link g self (head, tail, discovered) = do
  readers ←
      access (λ c. with_waiter tail (λ w. record w { counter = wrapping_sub w.counter 1 }))
        (λ c m. (m.heap tail).counter)
  assert broken_queue (not (readers == 0))
  if readers == 1 then unlock_shared_and_unpark g self else skip

after_link_lem :
    (g : Config) (self h t c : ℕ) (discovered : List ℕ) (m : Memory State)
    → (m.heap t).counter ≡ c
    → c ≢ 0
    → solo (after_link g self (h, t, discovered)) m ≡ (
        if c == 1
        then solo (unlock_shared_and_unpark g self) (one_less t m)
        else (one_less t m, inl tt))
unfolding access solo ◌>>=◌ assert
after_link_lem g self h t c discovered m counter some =
    let positive : ((m.heap t).counter == 0) ≡ false = ground (arith, counter, some) in
    let no_wrap : ltb (m.heap t).counter 1 ≡ false = ground (arith, counter, some) in
    rw (← counter) (elim (Bool-cases ((m.heap t).counter == 1)) [
      | inl last ↦ rw (solo, ◌>>=◌, positive, no_wrap, last) refl
      | inr more ↦ rw (solo, ◌>>=◌, positive, no_wrap, more) refl
    ])

-- Alone with a queue in which only the last waiter knows the tail, and on fuel for its length, a
-- reader that leaves a lock for which others wait links the queue and takes itself off the count
-- that the tail keeps. If it was the last reader it goes on to release the lock and to wake
-- waiters up; if not, it returns, and has changed nothing else.
pub unlock_shared_queued_lem :
    (g : Config) (self p : ℕ) (ws : List ℕ) (t : ℕ) (m : Memory State) (s : State)
    → s.locked ≡ true
    → s.queued ≡ true
    → s.reading ≡ true
    → s.remaining ≡ suc p
    → length ws ≤ g.fuel
    → Queue m.heap (suc p) ws t
    → (m.heap t).counter ≢ 0
    → solo (unlock_shared_queued g self s) m ≡ (
        if (m.heap t).counter == 1
        then solo (unlock_shared_and_unpark g self) (one_less t (linked (suc p) ws t m))
        else (one_less t (linked (suc p) ws t m), inl tt))
unfolding unlock_shared_queued resume assert ◌>>=◌
unlock_shared_queued_lem g self p ws t m s locked queued reading head le queue some =
    rw (locked, queued, reading, head)
      (solo-bind (get_and_link_queue g.fuel (suc p)) (after_link g self) m
        ∙ ap (resume (after_link g self)) (get_and_link_queue_lem g.fuel p ws t m le queue)
        ∙ after_link_lem g self (suc p) t (m.heap t).counter (onto ws []) (linked (suc p) ws t m)
            (counter-linked (suc p) ws t m t) some)
