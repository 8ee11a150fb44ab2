-- ===== src/Examples.antt =====
-- Threads beside each other at concrete inputs, and the theorems there.
use usync.Prelude.{
  ℕ, zero, suc, ◌+◌, ◌≤◌, Bool, true, false, List, [], ◌∷◌, ◌++◌, ◌≡◌, ◌≢◌, refl, bit, arith,
}
use usync.Prog.{ret, halt, bad_word, run}
use usync.Shared.{Config}
use usync.Once
use usync.Once.Exclusion.{closure_once, returned-completed, completed_final, state_words_hold}
use usync.Mutex
use usync.Mutex.Exclusion.{mutual_exclusion, words_hold}
use usync.Mutex.Lock.{owner}
use usync.Barrier
use usync.Barrier.Leader.{one_leader, passed-is_completed, completed_for_good, barrier_words_hold}
use usync.Prelude.{◌%◌, some}
use usync.Condvar
use usync.RwLock
use usync.Shared.Parker
use usync.Condvar.Notifying.{Free}
use usync.Condvar.Waiting.{wait_with-Ok}
use usync.Condvar.Exclusion.{guarded_exclusion, condvar_words_hold, condvar_word-IsWord}

abbrev cfg : Config
cfg = record { x86 = true; multi_core = false; fuel = 20 }

abbrev portable : Config
portable = record cfg { x86 = false }

-- Nine turns of the first thread, and four of the first two in turn.
abbrev steps : List (ℕ × Bool)
steps =
    (0, false)
    ∷ (0, false)
    ∷ (0, false)
    ∷ (0, false)
    ∷ (0, false)
    ∷ (0, false)
    ∷ (0, false)
    ∷ (0, false)
    ∷ (0, false)
    ∷ []

abbrev more : List (ℕ × Bool)
more = (0, true) ∷ (1, true) ∷ (0, true) ∷ (1, true) ∷ []

once_returned : (run (Once.Client.start cfg 2) steps).thread 0 ≡ ret tt
unfolding run Once.Client.client Once.call_once Once.call_once_slow Once.call_loop Once.do_call
    Once.drop_guard Once.wake_loop Once.Client.closure
once_returned = refl

once_completed : (run (Once.Client.start cfg 2) steps).memory.word.tag ≡ 3
unfolding run Once.Client.client Once.call_once Once.call_once_slow Once.call_loop Once.do_call
    Once.drop_guard Once.wake_loop Once.Client.closure
once_completed = refl

closure_once_example :
    (run (Once.Client.start cfg 2) steps).memory.counts.inside
      + (run (Once.Client.start cfg 2) steps).memory.counts.finished
    ≤ 1
closure_once_example = closure_once cfg 2 steps

returned-completed_example :
    ((run (Once.Client.start cfg 2) steps).memory.word.tag ≡ 3)
    × ((run (Once.Client.start cfg 2) steps).memory.counts.finished ≡ 1)
returned-completed_example = returned-completed cfg 2 steps 0 (omega arith) once_returned

completed_final_example :
    ((run (Once.Client.start cfg 2) (steps ++ more)).memory.word.tag ≡ 3)
    × ((run (Once.Client.start cfg 2) (steps ++ more)).memory.counts.finished ≡ 1)
    × ((run (Once.Client.start cfg 2) (steps ++ more)).memory.counts.inside ≡ 0)
completed_final_example = completed_final cfg 2 steps more once_completed

state_words_hold_example : (run (Once.Client.start cfg 2) more).thread 1 ≢ halt bad_word
state_words_hold_example = state_words_hold cfg 2 more 1 (omega arith)

mutual_exclusion_example :
    ((run (Mutex.Client.start cfg 1 2 3) (steps ++ more)).memory.counts.inside ≤ 1)
    × ((run (Mutex.Client.start cfg 1 2 3) (steps ++ more)).memory.counts.inside
        ≤ bit (run (Mutex.Client.start cfg 1 2 3) (steps ++ more)).memory.word.locked)
mutual_exclusion_example = mutual_exclusion cfg 1 2 3 (steps ++ more)

words_hold_example : (run (Mutex.Client.start portable 1 2 3) more).thread 0 ≢ halt bad_word
words_hold_example = words_hold portable 1 2 3 more 0 (omega arith)

one_leader_example :
    (run (Barrier.Client.start cfg 2 3 2) (steps ++ more)).memory.counts.finished ≤ 1
one_leader_example = one_leader cfg 2 3 2 (steps ++ more)

-- A barrier for one thread: the first wait completes it.
barrier_passed : (run (Barrier.Client.start cfg 1 2 2) steps).memory.counts.inside ≢ 0
unfolding run Barrier.Client.waiter Barrier.new Barrier.wait Barrier.wait_slow Barrier.wait_loop
barrier_passed = omega arith

barrier_completed :
    Barrier.is_completed (run (Barrier.Client.start cfg 1 2 2) steps).memory.word ≡ true
unfolding run Barrier.Client.waiter Barrier.new Barrier.wait Barrier.wait_slow Barrier.wait_loop
barrier_completed = refl

passed-is_completed_example :
    Barrier.is_completed (run (Barrier.Client.start cfg 1 2 2) steps).memory.word ≡ true
passed-is_completed_example = passed-is_completed cfg 1 2 2 steps barrier_passed

completed_for_good_example :
    Barrier.is_completed (run (Barrier.Client.start cfg 1 2 2) (steps ++ more)).memory.word ≡ true
completed_for_good_example = completed_for_good cfg 1 2 2 steps more barrier_completed

barrier_words_hold_example : (run (Barrier.Client.start cfg 2 2 1) more).thread 1 ≢ halt bad_word
barrier_words_hold_example = barrier_words_hold cfg 2 2 1 more 1 (omega arith)

-- Threads 0 and 2 with mutex 0, thread 1 with mutex 1.
abbrev parity : ℕ → ℕ
parity i = i % 2

abbrev turns : ℕ → ℕ → Bool → List (ℕ × Bool)
turns i zero c = []
turns i (suc k) c = (i, c) ∷ turns i k c

-- Thread 0 waits up to the time 0; the clock advances; it wakes up, finds that it is late, lets
-- every waiter go, itself too, and takes the mutex again.
abbrev times_out : List (ℕ × Bool)
times_out =
    turns 0 3 false ++ (0, true) ∷ turns 0 14 false ++ (1, false) ∷ (0, true) ∷ turns 0 17 false

late :
    ((run (Condvar.Client.start cfg parity 1 0 5 1) times_out).memory.word.mutexes 0).counts.inside
    ≡ 1
unfolding run Condvar.Client.worker Condvar.Client.event Condvar.Client.clock Condvar.zoom
    Condvar.Wait.wait_until Condvar.Wait.wait_for Condvar.Wait.wait_with Condvar.Wait.push_loop
    Condvar.Notify.notify_all Condvar.Notify.notify_all_slow Condvar.Notify.unpark_waiters
    Condvar.Notify.unpark_requeue Condvar.Notify.requeue_loop RwLock.Lock.try_requeue
    RwLock.Lock.try_requeue_loop RwLock.Lock.lock_exclusive RwLock.Lock.try_lock_exclusive_fast
    RwLock.Unlock.unlock_exclusive RwLock.State.minus Mutex.lock Mutex.unlock Mutex.Client.critical
    Parker.park Parker.unpark
late = refl

guarded_exclusion_example :
    (((run (Condvar.Client.start cfg parity 1 0 5 1) times_out).memory.word.mutexes 0).counts.inside
      ≤ 1)
    × (((run (Condvar.Client.start cfg parity 1 0 5 1) times_out).memory.word.mutexes
          0).counts.inside
        ≤ bit
            ((run (Condvar.Client.start cfg parity 1 0 5 1) times_out).memory.word.mutexes
              0).state.locked)
guarded_exclusion_example = guarded_exclusion cfg parity 1 0 5 1 times_out 0

condvar_words_hold_example :
    (run (Condvar.Client.start portable parity 3 9 12 2) more).thread 1 ≢ halt bad_word
condvar_words_hold_example = condvar_words_hold portable parity 3 9 12 2 more 1 (omega arith)

condvar_word-IsWord_example :
    Condvar.Roles.IsWord (run (Condvar.Client.start cfg parity 3 9 12 2) steps).memory.word.condvar
condvar_word-IsWord_example = condvar_word-IsWord cfg parity 3 9 12 2 steps

-- A thread that has every mutex, and nothing of the condition variable.
abbrev waiting_role : Condvar.Roles.Role
waiting_role = record { locks = λ _. owner; queue = 0; signals = 0 }

waiting-Free : Free waiting_role
waiting-Free = record { calm = λ l. refl; queue = refl; signals = refl }

wait_with-Ok_example :
    Condvar.Roles.Ok
      (Condvar.Requeue.EndsIn waiting_role)
      (Condvar.Wait.wait_with cfg 0 1 2 (some 9))
      waiting_role
wait_with-Ok_example =
    wait_with-Ok cfg 0 1 2 (omega arith) {r = waiting_role} (some 9) waiting-Free refl
