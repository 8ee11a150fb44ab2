-- ===== src/ParkingRuns.antt =====
-- A thread that parks beside one that unparks it, and threads that try to take a lock, at concrete
-- schedules.
use usync.Prelude.{
  zero, suc, Option, none, ◌<◌, ◌⊎◌, inl, ℕ, ◌≤◌, Bool, true, false, List, [], ◌∷◌, ◌≡◌, ◌≢◌, refl,
  arith,
}
use usync.Prog.{not_queued, ret, halt, bad_word, no_fuel, Reason, run, solo, System}
use usync.Shared.{Config, Memory, fresh_memory, null}
use usync.Shared.Parker
use usync.Shared.Queue.{get_and_link_queue}
use usync.Barrier
use usync.Barrier.Arrival.Rendezvous.{rendezvous}
use usync.Barrier.Arrival.Queued.{Counted, queue_count}
use usync.Shared.Still.{view}
use usync.Shared.Parker.Client
use usync.Shared.Parker.Wakeup.{parked-unparked, stopped-no_fuel, no_lost_wakeup}
use usync.RwLock.Lock.{
  try_lock_exclusive_fast, try_lock_shared, try_lock_shared_fast, try_lock_shared_assuming,
}
use usync.RwLock.State.{State}
use usync.RwLock.Client as RwLock_Client
use usync.RwLock.Exclusion.{reader_writer_exclusion, flags_hold}

abbrev cfg : Config
cfg = record { x86 = true; multi_core = false; fuel = 20 }

-- `n` turns of thread `i`, in front of others.
abbrev turns : (n i : ℕ) → List (ℕ × Bool) → List (ℕ × Bool)
turns zero i l = l
turns (suc n) i l = (i, false) ∷ turns n i l

-- The first thread blocks for a turn, and the second one unparks it.
abbrev unparked : List (ℕ × Bool)
unparked = turns 5 0 (turns 7 1 [])

abbrev parked : List (ℕ × Bool)
parked = turns 5 0 (turns 7 1 (turns 4 0 []))

abbrev parking : System (Memory (Unit {0})) Bool
parking = Client.start cfg 1 none 3 (fresh_memory tt)

parked_returned : (run parking parked).thread 0 ≡ ret true
unfolding run Client.threads Client.parker Client.unparker Parker.park Parker.unpark
parked_returned = refl

unparked_returned : (run parking unparked).thread 1 ≡ ret true
unfolding run Client.threads Client.parker Client.unparker Parker.park Parker.unpark
unparked_returned = refl

parked-unparked_example :
    (0 < (run parking parked).memory.counts.inside)
    × (((run parking parked).memory.heap 1).parker ≡ null)
parked-unparked_example =
    parked-unparked cfg 1 none 3 (fresh_memory tt) parked refl refl parked_returned

-- On fuel for one round the wait for the event is over before the event is set.
abbrev parking_short : System (Memory (Unit {0})) Bool
parking_short = Client.start (record cfg { fuel = 1 }) 1 none 3 (fresh_memory tt)

parking_stopped : (run parking_short (turns 6 0 [])).thread 0 ≡ halt no_fuel
unfolding run Client.threads Client.parker Client.unparker Parker.park Parker.unpark
parking_stopped = refl

stopped-no_fuel_example : (◌≡◌ {A = Reason} no_fuel no_fuel) × (1 ≤ 6)
stopped-no_fuel_example =
    stopped-no_fuel (record cfg { fuel = 1 }) 1 none 3 (fresh_memory tt) (turns 6 0 []) 0 no_fuel
      (omega arith) refl refl parking_stopped

no_lost_wakeup_example :
    (b : Bool) × ((solo ((run parking unparked).thread 0) (run parking unparked).memory).1 ≡ inl b)
    × ((b ≡ true) ⊎ (◌≢◌ {A = Option ℕ} none none))
no_lost_wakeup_example =
    no_lost_wakeup cfg 1 none 3 (fresh_memory tt) unparked refl refl (omega arith) unparked_returned

-- The first thread is a writer in its section; the second one tries to read, and is refused.
abbrev contended : List (ℕ × Bool)
contended = turns 3 0 ((1, true) ∷ turns 2 1 [])

abbrev tryers : System (Memory State) (Unit {0})
tryers = RwLock_Client.start cfg 1 2 3

one_writer : (run tryers contended).memory.counts.inside ≡ 1
unfolding run RwLock_Client.tryer RwLock_Client.write_section RwLock_Client.read_section
    try_lock_exclusive_fast try_lock_shared try_lock_shared_fast try_lock_shared_assuming
one_writer = refl

reader_writer_exclusion_example :
    ((run tryers contended).memory.counts.inside ≤ 1)
    × (((run tryers contended).memory.counts.inside ≡ 0)
        ⊎ ((run tryers contended).memory.counts.finished ≡ 0))
    × ((run tryers contended).memory.counts.finished ≤ (run tryers contended).memory.word.remaining)
reader_writer_exclusion_example = reader_writer_exclusion cfg 1 2 3 contended

flags_hold_example :
    ((run tryers contended).thread 1 ≢ halt bad_word)
    × ((run tryers contended).thread 1 ≢ halt not_queued)
flags_hold_example = flags_hold cfg 1 2 3 contended 1 (omega arith)

-- The first thread waits at a barrier for two, and the second one completes it.
abbrev met : List (ℕ × Bool)
met = turns 5 0 (turns 26 1 [])

abbrev meeting : System (Memory Barrier.Word) (Unit {0})
meeting = run (Barrier.Client.arrivals cfg 2 2 1) met

met_returned : meeting.memory.counts.finished ≢ 0
unfolding run Barrier.Client.arriver Barrier.new Barrier.wait Barrier.wait_slow Barrier.wait_loop
    Barrier.prepare Barrier.queued Barrier.link_queue_or_complete Barrier.complete Barrier.wake_loop
    get_and_link_queue Parker.park Parker.unpark
met_returned = omega arith

rendezvous_example : 2 ≤ meeting.memory.counts.inside
rendezvous_example = rendezvous cfg 2 2 1 met (omega arith) met_returned

-- Two threads wait at a barrier for three, and have linked the queue.
abbrev two_wait : List (ℕ × Bool)
two_wait = turns 5 0 (turns 13 1 [])

abbrev linked_two : System (Memory Barrier.Word) (Unit {0})
linked_two = run (Barrier.Client.arrivals cfg 3 3 1) two_wait

linked_two_word : linked_two.memory.word ≡ Barrier.waiting 2 false
unfolding run Barrier.Client.arriver Barrier.new Barrier.wait Barrier.wait_slow Barrier.wait_loop
    Barrier.prepare Barrier.queued Barrier.link_queue_or_complete get_and_link_queue
linked_two_word = refl

queue_count_example : Counted (view linked_two.memory).links 3 3 2
queue_count_example = queue_count cfg 3 3 1 two_wait 2 (omega arith) linked_two_word
