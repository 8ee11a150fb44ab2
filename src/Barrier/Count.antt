-- ===== src/Barrier/Count.antt =====
-- How the thread that holds QUEUE_LOCKED at a barrier counts the waiters, alone with the queue.
use usync.Prelude.{
  ℕ, suc, ◌-◌, ◌≤◌, Bool, true, false, List, [], ◌≡◌, refl, inl, inr, ◌==◌, length, if◌then◌else◌,
  match_option, Bool-cases, ap, ◌∙◌, arith,
}
use usync.Prog.{solo, ◌>>=◌, ◌>>◌, access, assert, ret}
use usync.Prog.Solo.{resume, solo-bind}
use usync.Shared.{read, modify, cas_weak, Memory, with_waiter, Config}
use usync.Shared.Queue.{get_and_link_queue}
use usync.Shared.Queue.Linked.{
  Queue, linked, onto, get_and_link_queue_lem, length-onto, counter-linked, word-linked,
}
use usync.Barrier.{Code, same, without_lock, Word, waiting, complete, link_queue_or_complete}

-- The memory after the waiters behind the head have been linked and counted.
abbrev pub counted : ℕ → List ℕ → ℕ → Memory Word → Memory Word
counted h ws t m =
    with_waiter t (λ x. record x { counter = (m.heap t).counter - length ws }) (linked h ws t m)

-- What `link_queue_or_complete` does with the queue that it has linked.
abbrev after_link : Config → ℕ → Word → ℕ × ℕ × List ℕ → Code Bool
after_link g f w (head, tail, discovered) = do
  counter ← read tail (λ x. x.counter)
  modify tail (λ x. record x { counter = counter - length discovered })
  if counter - length discovered == 0 then complete g else do
    e ← cas_weak same w (without_lock w)
    match_option e (ret false) λ w'. link_queue_or_complete g f w'

after_link_lem :
    (g : Config) (f h t c k : ℕ) (discovered : List ℕ) (m : Memory Word)
    → m.word ≡ waiting h true
    → (m.heap t).counter ≡ c
    → length discovered ≡ k
    → solo (after_link g f (waiting h true) (h, t, discovered)) m ≡ (
        if c - k == 0
        then solo (complete g) (with_waiter t (λ x. record x { counter = c - k }) m)
        else (
          record (with_waiter t (λ x. record x { counter = c - k }) m) { word = waiting h false },
          inl false,
        ))
unfolding access solo ◌>>=◌
after_link_lem g f h t c k discovered m word counter found =
    rw (← counter, ← found)
      (elim (Bool-cases ((m.heap t).counter - length discovered == 0)) [
        | inl last ↦ rw (last, solo) refl
        | inr more ↦
            let self : (h == h) ≡ true = ground arith in rw (more, solo, ◌>>=◌, word, self) refl
      ])

-- Alone with a queue in which only the last waiter knows the tail, and on fuel for its length,
-- `link_queue_or_complete` links the queue and takes the waiters behind the head off the count that the
-- tail keeps, stopping at zero. If that uses the count up, the barrier is completed; if not, the
-- thread gives QUEUE_LOCKED back, does not lead, and changes nothing else.
pub link_queue_or_complete_lem :
    (g : Config) (f p : ℕ) (ws : List ℕ) (t : ℕ) (m : Memory Word)
    → m.word ≡ waiting (suc p) true
    → length ws ≤ g.fuel
    → Queue m.heap (suc p) ws t
    → solo (link_queue_or_complete g (suc f) (waiting (suc p) true)) m ≡ (
        if (m.heap t).counter - length ws == 0
        then solo (complete g) (counted (suc p) ws t m)
        else (record (counted (suc p) ws t m) { word = waiting (suc p) false }, inl false))
unfolding link_queue_or_complete assert access solo ◌>>=◌ resume
link_queue_or_complete_lem g f p ws t m word le queue =
    solo-bind (get_and_link_queue g.fuel (suc p)) (after_link g f (waiting (suc p) true)) m
    ∙ ap (resume (after_link g f (waiting (suc p) true)))
        (get_and_link_queue_lem g.fuel p ws t m le queue)
    ∙ after_link_lem g f (suc p) t (m.heap t).counter (length ws) (onto ws [])
        (linked (suc p) ws t m) (word-linked (suc p) ws t m ∙ word)
        (counter-linked (suc p) ws t m t) (length-onto ws [] ∙ omega arith)
