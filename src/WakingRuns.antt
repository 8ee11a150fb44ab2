-- ===== src/WakingRuns.antt =====
-- Whom a thread that is alone with a queue wakes up, at concrete queues.
use usync.Prelude.{ℕ, true, false, some, [], ◌∷◌, ◌≡◌, refl, inl, ◌==◌, if◌then◌else◌, arith}
use usync.Prog.{solo}
use usync.Shared.{Config, Memory, Waiter, new_waiter, fresh_memory, registered, no_counts}
use usync.Shared.Parker.Woken.{wake_each}
use usync.Shared.Queue.Linked.{linked, link_back}
use usync.RwLock.State.{State, unlocked}
use usync.RwLock.Wake
use usync.RwLock.Woken.{Back}
use usync.RwLock.Waking.{woken_up, unpark_wakes}
use usync.Barrier
use usync.Barrier.Waking.{complete_wakes}
use usync.Once
use usync.Condvar
use usync.Condvar.Notify.{unpark_all}
use usync.Condvar.Waking.{unpark_all_wakes}
use usync.Once.Waking.{drop_guard_wakes}

abbrev cfg : Config
cfg = record { x86 = true; multi_core = false; fuel = 20 }

-- Waiters of lock 7: readers 3 and 2, and in front of them all the writer 1, which is asleep.
abbrev waiter : ℕ → Waiter
waiter p =
    if p == 1
    then record new_waiter {
      tail = some 1;
      waiting_on = some 7;
      flags = 1;
      parker = registered;
      event = record { has_thread = true; is_set = false; token = false };
    }
    else if p == 2
    then record new_waiter { next = some 1; waiting_on = some 7 }
    else record new_waiter { next = some 2; waiting_on = some 7 }

abbrev free : State
free = record unlocked { queued = true; queue_locked = true; remaining = 3 }

abbrev lock : Memory State
lock = record (fresh_memory free) { heap = waiter }

linked-Back : Back (linked 3 (2 ∷ 1 ∷ []) 1 lock).heap 7 (1 ∷ 2 ∷ 3 ∷ [])
unfolding link_back
linked-Back = (refl, refl, refl, (refl, refl, tt, (refl, refl, tt, tt)))

unpark_wakes_example :
    solo (Wake.unpark cfg 7 free) lock
    ≡ (woken_up cfg 7 free 3 1 (2 ∷ 3 ∷ []) (linked 3 (2 ∷ 1 ∷ []) 1 lock), inl tt)
unpark_wakes_example =
    unpark_wakes cfg 7 2 (2 ∷ 1 ∷ []) 1 (2 ∷ 3 ∷ []) free lock refl refl refl refl refl
      (omega arith) (refl, refl, (refl, refl, refl)) (omega arith)
      ((λ e. omega arith, (λ e. omega arith, tt)), ((λ e. omega arith, tt), (tt, tt))) linked-Back

abbrev full : Memory Barrier.Word
full = record (fresh_memory (Barrier.waiting 3 true)) { heap = waiter }

complete_wakes_example :
    solo (Barrier.complete cfg) full
    ≡ (wake_each (3 ∷ 2 ∷ 1 ∷ []) (record full { word = Barrier.completed }), inl true)
complete_wakes_example =
    complete_wakes cfg 2 (2 ∷ 1 ∷ []) full refl (omega arith)
      ((λ e. omega arith, (λ e. omega arith, tt)), ((λ e. omega arith, tt), (tt, tt)))
      (refl, tt, (refl, tt, (refl, refl, tt)))

abbrev called : Memory Once.Word
called = record (fresh_memory (record { tag = 1; head = 3 })) { heap = waiter }

drop_guard_wakes_example :
    solo (Once.drop_guard cfg 4 (Once.word 3)) called
    ≡ (wake_each (3 ∷ 2 ∷ 1 ∷ []) (record called { word = Once.word 3 }), inl tt)
drop_guard_wakes_example =
    drop_guard_wakes cfg 4 (Once.word 3) (3 ∷ 2 ∷ 1 ∷ []) called refl refl (omega arith)
      ((λ e. omega arith, (λ e. omega arith, tt)), ((λ e. omega arith, tt), (tt, tt)))
      (refl, tt, (refl, tt, (refl, refl, tt)))

-- Waiters 2 and 1 of a condition variable, of mutexes 7 and 8, which are free.
abbrev notified_waiter : ℕ → Waiter
notified_waiter p =
    if p == 1
    then record new_waiter { tail = some 1; waiting_on = some 8; flags = 1 }
    else record new_waiter { next = some 1; waiting_on = some 7; flags = 1 }

abbrev two_signals : Condvar.Words
two_signals = record {
  condvar = record { signals = 2; queue_locked = true; head = 2 };
  mutexes = λ _. record { state = unlocked; counts = no_counts };
}

abbrev condvar_memory : Memory Condvar.Words
condvar_memory = record (fresh_memory two_signals) { heap = notified_waiter }

unpark_all_wakes_example : solo (unpark_all cfg) condvar_memory ≡ (
  wake_each
      (2 ∷ 1 ∷ [])
      (record condvar_memory { word = record two_signals { condvar = Condvar.init } }),
  inl tt,
)
unpark_all_wakes_example =
    unpark_all_wakes cfg 2 (1 ∷ []) condvar_memory refl (λ e. omega arith) refl (omega arith)
      ((λ e. omega arith, tt), (tt, tt)) (refl, tt, (refl, tt, tt))
      (λ e. omega arith, (7, refl, refl), (λ e. omega arith, (8, refl, refl), tt))
