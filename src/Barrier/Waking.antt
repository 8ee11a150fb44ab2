-- ===== src/Barrier/Waking.antt =====
-- src/barrier.rs: whom `complete` wakes up, for a thread that runs alone.
use usync.Prelude.{
  ℕ, zero, suc, ◌+◌, ◌<◌, true, Option, some, List, [], ◌∷◌, ◌≡◌, refl, ap, ◌∙◌, inl, length, arith,
}
use usync.Prog.{solo, bad_word, ◌>>=◌, ◌>>◌, access, assert, ret}
use usync.Prog.Solo.{resume, solo-bind}
use usync.Shared.{Memory, with_waiter, Config, non_null}
use usync.Shared.Parker.{unpark}
use usync.Shared.Parker.Woken.{front, woken, wake_each, Forward, woken-Forward, unpark_lem}
use usync.Shared.Queue.Linked.{Distinct}
use usync.Barrier.{
  Code, Word, waiting, completed, is_queued, is_queue_locked, pointer, wake_loop, complete,
}

module _ (g : Config) where
  abbrev next_round : ℕ → Option ℕ → Unit {0} → Code (Unit {0})
  next_round f next _ = wake_loop g f next

  wake_loop_lem :
      (f : ℕ) (xs : List ℕ) (m : Memory Word)
      → length xs < f
      → Distinct xs
      → Forward m.heap xs
      → solo (wake_loop g f (front xs)) m ≡ (wake_each xs m, inl tt)
  unfolding wake_loop solo access ◌>>=◌ resume
  wake_loop_lem zero xs m le d forward = absurd (omega (arith, le))
  wake_loop_lem (suc f) [] m le d forward = refl
  wake_loop_lem (suc f) (x ∷ xs) m le (apart, d) (next, waits, forward) =
      ap (λ o. solo (unpark g x >>= next_round f o) m) next
      ∙ solo-bind (unpark g x) (next_round f (front xs)) m
      ∙ ap (resume (next_round f (front xs))) (unpark_lem g x m waits)
      ∙ wake_loop_lem f xs (with_waiter x woken m) (omega (arith, le)) d
          (woken-Forward m x xs apart forward)

  -- Alone, at a word with QUEUE_LOCKED that names the waiter `p + 1`, on fuel for the queue: where the
  -- waiters `xs` follow that one by their `next`, without repetition, and none of them has been woken up,
  -- `complete` sets the word to COMPLETED, wakes up every one of them, changes nothing else, and leads.
  pub complete_wakes :
      (p : ℕ) (xs : List ℕ) (m : Memory Word)
      → m.word ≡ waiting (suc p) true
      → length xs + 1 < g.fuel
      → Distinct (suc p ∷ xs)
      → Forward m.heap (suc p ∷ xs)
      → solo (complete g) m ≡ (wake_each (suc p ∷ xs) (record m { word = completed }), inl true)
  unfolding complete solo access assert ◌>>=◌ resume
  complete_wakes p xs m word le d forward =
      let m' = record m { word = completed } in
      ap
        (λ w.
          solo
            (assert bad_word (is_queued w)
              >> (assert bad_word (is_queue_locked w)
                  >> (wake_loop g g.fuel (non_null (pointer w)) >>= λ _. ret true)))
            m')
        word
      ∙ solo-bind (wake_loop g g.fuel (some (suc p))) (λ _. ret true) m'
      ∙ ap (resume (λ _. ret true))
          (wake_loop_lem g.fuel (suc p ∷ xs) m' (omega (arith, le)) d forward)
