-- ===== src/Once/Waking.antt =====
-- src/once.rs: whom the end of a call wakes up, for a thread that runs alone.
use usync.Prelude.{
  ℕ, zero, suc, ◌<◌, ◌%◌, ◌==◌, true, Option, List, [], ◌∷◌, ◌≡◌, refl, ap, ◌∙◌, inl, length, arith,
}
use usync.Prog.{solo, bad_word, ◌>>=◌, ◌>>◌, access, assert}
use usync.Prog.Solo.{resume, solo-bind}
use usync.Shared.{Memory, with_waiter, Config, non_null}
use usync.Shared.Parker.{unpark}
use usync.Shared.Parker.Woken.{front, woken, wake_each, Forward, woken-Forward, unpark_lem}
use usync.Shared.Queue.Linked.{Distinct}
use usync.Once.{Code, Word, wake_loop, drop_guard}

module _ (g : Config) (me : ℕ) where
  abbrev next_round : ℕ → Option ℕ → Unit {0} → Code (Unit {0})
  next_round f next _ = wake_loop g me f next

  wake_loop_lem :
      (f : ℕ) (xs : List ℕ) (m : Memory Word)
      → length xs < f
      → Distinct xs
      → Forward m.heap xs
      → solo (wake_loop g me f (front xs)) m ≡ (wake_each xs m, inl tt)
  unfolding wake_loop solo access ◌>>=◌ resume
  wake_loop_lem zero xs m le d forward = absurd (omega (arith, le))
  wake_loop_lem (suc f) [] m le d forward = refl
  wake_loop_lem (suc f) (x ∷ xs) m le (apart, d) (next, waits, forward) =
      ap (λ o. solo (unpark g x >>= next_round f o) m) next
      ∙ solo-bind (unpark g x) (next_round f (front xs)) m
      ∙ ap (resume (next_round f (front xs))) (unpark_lem g x m waits)
      ∙ wake_loop_lem f xs (with_waiter x woken m) (omega (arith, le)) d
          (woken-Forward m x xs apart forward)

  -- Alone, at a word with CALLING in its two low bits, on fuel for the queue: where the head of the word is
  -- the first of the waiters `xs`, or null if there is none, they follow by their `next`, without
  -- repetition, and none of them has been woken up, dropping the guard of a call sets the word to what the
  -- guard was given, wakes up every one of the waiters, and changes nothing else.
  pub drop_guard_wakes :
      (w : Word) (xs : List ℕ) (m : Memory Word)
      → m.word.tag % 4 ≡ 1
      → non_null m.word.head ≡ front xs
      → length xs < g.fuel
      → Distinct xs
      → Forward m.heap xs
      → solo (drop_guard g me w) m ≡ (wake_each xs (record m { word = w }), inl tt)
  unfolding drop_guard solo access assert ◌>>=◌
  drop_guard_wakes w xs m calling head le d forward =
      let m' = record m { word = w } in
      let called : (m.word.tag % 4 == 1) ≡ true = ground (arith, calling) in
      ap (λ b. solo (assert bad_word b >> wake_loop g me g.fuel (non_null m.word.head)) m') called
      ∙ ap (λ o. solo (wake_loop g me g.fuel o) m') head
      ∙ wake_loop_lem g.fuel xs m' le d forward
