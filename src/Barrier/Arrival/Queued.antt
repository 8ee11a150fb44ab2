-- ===== src/Barrier/Arrival/Queued.antt =====
-- The queue of waiters of a barrier, when no thread holds QUEUE_LOCKED.
use usync.Prelude.{
  ℕ, ◌+◌, ◌^◌, ◌<◌, Bool, false, some, List, [], ◌∷◌, ◌≡◌, ◌≢◌, sym, ap, ◌∙◌, length, total,
  le-total, total-eq-zero, arith,
}
use usync.Prog.{run}
use usync.Shared.{Config}
use usync.Shared.Still.{Links, view}
use usync.Shared.Queue.Linked.{Distinct}
use usync.Shared.Queue.Chain.{All, map-All, Line, unique-Chain}
use usync.Barrier.{waiting}
use usync.Barrier.Client.{arrivals}
use usync.Barrier.Arrival.Roles.{holding, owing, Waits}
use usync.Barrier.Arrival.Knowledge.{free_owes}
use usync.Barrier.Arrival.Rendezvous.{reachable}

-- The queue at the head `h`: a line of distinct waiters of the `n` threads, the last of which keeps
-- what is left of the count and is cached at the head.
pub record Counted (heap : ℕ → Links) (size n h : ℕ) : Type 0 where
  pub behind : List ℕ
  pub tail : ℕ
  pub line : Line heap h behind tail
  pub members : All (λ x. (j : ℕ) × (j < n) × (x ≡ j + 1)) (h ∷ behind)
  pub distinct : Distinct (h ∷ behind)
  pub cached : (heap h).tail ≡ some tail
  pub left : (heap tail).counter ≢ 0
  pub count : length (h ∷ behind) + (heap tail).counter ≡ size

-- For a barrier of `size` threads, below 2 ^ 63, and any number of threads that call `wait` any number
-- of times, after every schedule: if the word names the waiter `h` and QUEUE_LOCKED is not set, then
-- from `h` on the waiters follow by their `next` without repetition, all of them waiters of the
-- threads; `h` caches the last one, and the count there, which is not zero, makes up `size` with the
-- number of waiters. So fewer than `size` threads are in such a queue.
pub queue_count :
    (g : Config) (size n rounds : ℕ) (l : List (ℕ × Bool)) (h : ℕ)
    → size < 2 ^ 63
    → (run (arrivals g size n rounds) l).memory.word ≡ waiting h false
    → Counted (view (run (arrivals g size n rounds) l).memory).links size n h
queue_count g size n rounds l h fits word =
    let (rs, inv) = reachable g size n rounds l fits in
    let heap = (view (run (arrivals g size n rounds) l).memory).links in
    let q : Waits size n heap h rs = rw word at inv.queue in
    let (t, tail, more) = inv.settled h word in
    let (none_fresh, eb, et) =
      unique-Chain heap [] q.fresh h q.base t q.tail q.head tt q.path tail q.cached in
    let count : (heap q.tail).counter ≡ (heap t).counter = ap (λ x. (heap x).counter) (sym et) in
    let no_locks : total holding n rs ≡ 0 = rw word at inv.locks in
    let owed : total owing n rs ≡ 0 =
      total-eq-zero owing n rs λ j below.
        free_owes (rs j).phase (omega (arith, no_locks, le-total holding n rs j below)) in
    record {
      behind = q.behind;
      tail = q.tail;
      line = q.line;
      members = map-All (h ∷ q.behind) (λ x (j, below, ex, _). (j, below, ex)) q.all_members;
      distinct = q.all_distinct;
      cached = tail ∙ ap some et;
      left = λ z. more (sym count ∙ z);
      count = omega (
        arith,
        q.exact (λ z. more (sym count ∙ z)),
        owed,
        q.many,
        q.whole,
        ap length (sym none_fresh),
      );
    }
