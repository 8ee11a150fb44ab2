-- ===== src/QueueRuns.antt =====
-- The queue of waiters linked and counted by a thread that runs alone, at concrete inputs.
use usync.Prelude.{true, false, [], ◌∷◌, some, ◌≡◌, refl, inl, arith}
use usync.Prelude.{if◌then◌else◌, ◌==◌}
use usync.Prog.{solo, ◌>>=◌}
use usync.Shared.{Config, Memory, new_waiter, fresh_memory}
use usync.Shared.Queue.{get_and_link_queue}
use usync.Shared.Queue.Linked.{
  Queue, linked, PointsBack, get_and_link_queue_lem, get_and_link_queue_again,
  get_and_link_queue-PointsBack,
}
use usync.RwLock.State.{State, unlocked}
use usync.Barrier
use usync.Barrier.Count.{counted, link_queue_or_complete_lem}
use usync.RwLock.Unlock.{unlock_shared_queued}
use usync.RwLock.Count.{one_less, unlock_shared_queued_lem}

abbrev cfg : Config
cfg = record { x86 = true; multi_core = false; fuel = 20 }

-- Three waiters, the last one first: 3, 2 and 1.
abbrev three : Memory State
three = record (fresh_memory unlocked) {
  heap = λ p.
      if p == 1
      then record new_waiter { tail = some 1 }
      else if p == 2
      then record new_waiter { next = some 1 }
      else record new_waiter { next = some 2 };
}

three-Queue : Queue three.heap 3 (2 ∷ 1 ∷ []) 1
three-Queue = (refl, refl, (refl, refl, refl))

get_and_link_queue_lem_example :
    solo (get_and_link_queue 5 3) three ≡ (linked 3 (2 ∷ 1 ∷ []) 1 three, inl (3, 1, 1 ∷ 2 ∷ []))
get_and_link_queue_lem_example =
    get_and_link_queue_lem 5 2 (2 ∷ 1 ∷ []) 1 three (omega arith) three-Queue

get_and_link_queue_again_example :
    solo (get_and_link_queue 5 3 >>= λ _. get_and_link_queue 5 3) three
    ≡ (linked 3 (2 ∷ 1 ∷ []) 1 three, inl (3, 1, []))
get_and_link_queue_again_example =
    get_and_link_queue_again 5 2 (2 ∷ 1 ∷ []) 1 three (omega arith) three-Queue

get_and_link_queue-PointsBack_example :
    PointsBack (solo (get_and_link_queue 5 3) three).0.heap 3 (2 ∷ 1 ∷ [])
get_and_link_queue-PointsBack_example =
    get_and_link_queue-PointsBack 5 2 (2 ∷ 1 ∷ []) 1 three (omega arith) three-Queue
      ((λ e. omega arith, tt), (tt, tt))

-- The same heap at a barrier: of three threads still to come, two have been queued behind the first.
abbrev barrier_three : Memory Barrier.Word
barrier_three = record (fresh_memory (Barrier.waiting 3 true)) {
  heap = λ p. if p == 1 then record (three.heap 1) { counter = 3 } else three.heap p;
}

link_queue_or_complete_lem_example :
    solo (Barrier.link_queue_or_complete cfg 1 (Barrier.waiting 3 true)) barrier_three ≡ (
      record (counted 3 (2 ∷ 1 ∷ []) 1 barrier_three) { word = Barrier.waiting 3 false },
      inl false,
    )
link_queue_or_complete_lem_example =
    link_queue_or_complete_lem cfg 0 2 (2 ∷ 1 ∷ []) 1 barrier_three refl (omega arith)
      (refl, refl, (refl, refl, refl))

-- A lock with two readers, for which three threads wait.
abbrev read_locked : State
read_locked = record {
  locked = true;
  reading = true;
  queued = true;
  queue_locked = false;
  remaining = 3;
}

abbrev two_readers : Memory State
two_readers = record three {
  word = read_locked;
  heap = λ p. if p == 1 then record (three.heap 1) { counter = 2 } else three.heap p;
}

unlock_shared_queued_lem_example :
    solo (unlock_shared_queued cfg 1 read_locked) two_readers
    ≡ (one_less 1 (linked 3 (2 ∷ 1 ∷ []) 1 two_readers), inl tt)
unlock_shared_queued_lem_example =
    unlock_shared_queued_lem cfg 1 2 (2 ∷ 1 ∷ []) 1 two_readers read_locked refl refl refl refl
      (omega arith) (refl, refl, (refl, refl, refl)) (λ e. ground arith)
