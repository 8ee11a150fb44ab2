-- ===== src/Lib.antt =====
-- A model of the crate usync: word-sized synchronisation primitives that keep their waiting threads
-- in a queue of waiters on the threads' own stacks.
--
-- The parts and where they are modelled:
--   Prog        threads as sequences of atomic accesses; their interleavings; reasoning about one
--               thread while others interfere (Prog/Safe), and about one that is alone (Prog/Solo);
--               how long fuel lasts (Prog/Lasts)
--   Shared      src/shared/: the memory that the threads share, and the accesses to it; spin.rs is
--               Shared/Spin, event.rs and parker.rs are Shared/Parker (with what a thread that parks and
--               one that unparks it promise each other in Shared/Parker/Wakeup), waiter.rs is Shared (the
--               cells) and Shared/Queue (get_and_link_queue, with what it does to the queue in
--               Shared/Queue/Linked, and the queue while threads push to it in
--               Shared/Queue/Chain), strict_provenance.rs is Shared/Pointer. Shared/Neutral,
--               Shared/Still and Shared/Protocol carry the proofs.
--   RwLock      src/rwlock.rs, `RawRwLock`: the word is RwLock/State, locking is RwLock/Lock,
--               releasing RwLock/Unlock, and waking waiters up RwLock/Wake; RwLock/Spec is the lock
--               as a caller without contention knows it, RwLock/Alone and RwLock/Refinement relate
--               the two. RwLock/Exclusion has readers and writers beside each other that take the
--               lock without blocking, RwLock/Count a reader that leaves while others wait, RwLock/Waking
--               whom `unpark` wakes up
--   Mutex       src/mutex.rs, `RawMutex`: the lock of rwlock.rs taken exclusively
--   Once        src/once.rs; Once/Spec is a `Once` for callers that come one after the other, and
--               Once/Alone relates the code to it; whom the end of a call wakes up is Once/Waking
--   Barrier     src/barrier.rs; how the waiters are counted is Barrier/Count, and what a thread
--               knows of the queue while others push to it Barrier/Arrival; whom `complete` wakes
--               up is Barrier/Waking
--   Condvar     src/condvar.rs: waking is Condvar/Notify, waiting is Condvar/Wait; it requeues its
--               waiters onto the mutex by `try_requeue` of rwlock.rs. The memory has a word for each mutex,
--               and `zoom` runs the code of one of them there; Condvar/Rules carries the proofs
--               about the mutex over. The signals that `unpark` leaves in the word are the subject
--               of Condvar/Signals; whom `unpark_all` wakes up is Condvar/Waking
--   Examples    threads beside each other at concrete inputs, as in ParkingRuns; Runs, QueueRuns and
--               WakingRuns have code that runs alone
--
-- How the code is read. A function that touches shared memory is a program of type `Prog`, one `act`
-- for each atomic access or access to a cell of a waiter, with the local computation between them;
-- the functions have the names of the source. A function that the code has twice, once for x86 and
-- once for other targets, is a definition for each that one asking `Config.x86` chooses from. `match` on the result of a
-- compare-exchange is `match_option` on `none` for Ok and on the word that was found for Err. A
-- failed `assert`, `expect` or a panic of a closure stops the thread, with its reason; before that
-- `Once::do_call` drops its guard, and `Condvar::wait_with` takes the mutex again when its own
-- assertion fails. A failure inside a function that it calls stops the thread where it is. A schedule is
-- a list of turns; each turn lets one thread make one access and says how the environment chooses:
-- whether a weak compare-exchange fails spuriously, whether a closure panics. What is shown for all
-- schedules holds for all interleavings.
--
-- Words and pointers. The state word is a record of its flags and its remaining bits, and two words
-- are compared in all their parts; RwLock/State gives the address. A waiter is a number p, its
-- address is 16 * p, and a `Waiter` is a member of a heap of waiters. A thread number i waits on
-- waiter i + 1. A count of readers that would leave 64 bits is refused as the code refuses it.
--
-- Loops. The loops of the code have no bound of their own: a compare-exchange may fail for ever. Each
-- loop takes fuel, `Config.fuel`, and a thread whose fuel is used up stops with `no_fuel`. The
-- theorems about schedules hold for every fuel; a round makes at least one access, so in a schedule
-- of a given length fuel of that length is never used up. Without contention fuel for one round is
-- enough.
--
-- Roles. A proof gives each thread a role, which says what it owns of the word (the lock,
-- QUEUE_LOCKED, the call of a `Once`, the leadership of a barrier). Every access of the code is shown
-- to change word and role together as the protocol of the primitive allows, whatever the others do
-- between two accesses, and the invariant over all roles is shown to survive every such step.
--
-- What is not modelled: memory orderings, as the memory is sequentially consistent; that the stack of
-- a thread is used again once it has returned; the wrappers of the crate lock_api (guards, poisoning,
-- reentrant mutex); the thread ids; the benchmark. `std::thread::park` is taken at its documentation:
-- it blocks as long as its thread has no token, and may return at any time all the same.
-- `Instant::now` reads a clock that other threads let go on, as one does in Condvar/Client and in
-- Shared/Parker/Client.
pub mod Prelude
pub mod Prog
pub mod Shared
pub mod RwLock
pub mod Mutex
pub mod Once
pub mod Barrier
pub mod Condvar
pub mod Examples
pub mod Runs
pub mod QueueRuns
pub mod ParkingRuns
pub mod WakingRuns
