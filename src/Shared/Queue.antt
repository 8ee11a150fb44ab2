-- ===== src/Shared/Queue.antt =====
-- src/shared/waiter.rs: the queue of waiters that hangs off a state word.
pub mod Neutral
pub mod Linked
pub mod Chain
use usync.Prelude.{
  ℕ, zero, suc, ◌+◌, Bool, true, false, Option, none, some, List, [], ◌∷◌, match_option,
}
use usync.Prog.{Prog, ret, expect, halt, look, write, ◌>>=◌, ◌>>◌, broken_queue, no_fuel}
use usync.Shared.{Waiter, new_waiter, Memory, with_waiter, read, modify, non_null, Config}

module _ {S : Type 0} where
  -- The loop of `get_and_link_queue`, at `current`, with the waiters that were handed to
  -- `on_waiter_discovered` so far, the last one first.
  unfoldable pub link_loop : ℕ → ℕ → ℕ → List ℕ → Prog (Memory S) (ℕ × List ℕ)
  link_loop zero head current found = halt no_fuel
  link_loop (suc f) head current found = do
    next ← read current (λ w. w.next)
    next ← expect broken_queue next
    modify next (λ w. record w { prev = some current })
    tail ← read next (λ w. w.tail)
    match_option tail (link_loop f head next (next ∷ found))
        λ t. do modify head (λ w. record w { tail = some t }); ret (t, next ∷ found)

  -- `Waiter::get_and_link_queue`, at the pointer part of the word: head, tail, and the waiters
  -- that were discovered.
  unfoldable pub get_and_link_queue : ℕ → ℕ → Prog (Memory S) (ℕ × ℕ × List ℕ)
  unfolding link_loop
  get_and_link_queue fuel pointer = do
    head ← expect broken_queue (non_null pointer)
    cached ← read head (λ w. w.tail)
    match_option cached (do (t, found) ← link_loop fuel head head []; ret (head, t, found))
        λ t. ret (head, t, [])
