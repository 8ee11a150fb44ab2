-- ===== src/Runs.antt =====
-- Code that runs alone, at concrete inputs, and the theorems there.
use usync.Prelude.{
  ℕ, ◌+◌, ◌<◌, Bool, true, false, List, [], ◌∷◌, some, none, ◌≡◌, ◌≢◌, refl, inl, inr, arith,
}
use usync.Prelude.{if◌then◌else◌, ◌==◌}
use usync.Prog.{solo, poisoned, unwound}
use usync.Shared.{Counts, no_counts, Config, Memory, new_waiter, fresh_memory}
use usync.RwLock.Spec.{
  Operation, tries_shared, locks_shared, tries_exclusive, unlocks_shared, locks_exclusive,
  asks_locked_exclusive, unlocks_exclusive, free, perform_all,
}
use usync.RwLock.Refinement.{promises_kept}
use usync.Condvar
use usync.Once
use usync.Once.{new, done}
use usync.Once.Spec.{Call, calls}
use usync.Once.Alone.{calls_keep, panic_poisons}
use usync.Condvar.Notify.{scan, dequeued}
use usync.Condvar.Signals.{signals_stay}
use usync.RwLock.State.{State, unlocked, add_reader}
use usync.RwLock.State.Bits.{add_reader_lem}
use usync.Shared.Spin.{spins, spins-bound, num_cpus, num_cpus_lem}
use usync.Shared.Pointer.{
  Pointer, invalid_mut, map_address, with_address, with_address_miri, map_address-with_address,
}

abbrev cfg : Config
cfg = record { x86 = true; multi_core = false; fuel = 20 }

abbrev portable : Config
portable = record cfg { x86 = false }

abbrev condvar_memory : Memory Condvar.Words
condvar_memory =
    record (fresh_memory (record {
      condvar = Condvar.init;
      mutexes = λ _. record { state = unlocked; counts = no_counts };
    })) { heap = λ p. record new_waiter { prev = if p == 3 then none else some (p + 1) } }

abbrev signalled : Condvar.Word
signalled = record { signals = 1; queue_locked = true; head = 3 }

signals_stay_example :
    (front' : ℕ) × (n : ℕ) × (solo (scan cfg 3 (signalled.signals + 0) 1 1) condvar_memory
      ≡ (condvar_memory, inl (front', n)))
    × ((condvar_memory.heap front').prev ≢ none
        → (dequeued signalled n).signals ≡ signalled.signals)
signals_stay_example = signals_stay cfg condvar_memory signalled 0 2 1 1 (omega arith)

abbrev rounds : List Operation
rounds =
    tries_shared ∷ locks_shared ∷ tries_exclusive ∷ unlocks_shared ∷ unlocks_shared
    ∷ locks_exclusive ∷ asks_locked_exclusive ∷ unlocks_exclusive ∷ []

abbrev answers : List Bool
answers = true ∷ true ∷ false ∷ true ∷ true ∷ true ∷ true ∷ true ∷ []

promises_kept_example :
    solo (perform_all portable 1 2 rounds) (fresh_memory unlocked)
    ≡ (fresh_memory unlocked, inl answers)
promises_kept_example =
    promises_kept false false 19 1 2 (fresh_memory unlocked) rounds free free answers refl

abbrev reader_word : State
reader_word = record unlocked { locked = true; reading = true; remaining = 7 }

add_reader_lem_example : add_reader reader_word ≡ some (record reader_word { remaining = 8 })
unfolding add_reader
add_reader_lem_example = add_reader_lem reader_word

spins-bound_example : spins true 300 (record { counter = 0 }) ≡ 100
spins-bound_example = spins-bound true 300 (record { counter = 0 })

num_cpus_lem_example :
    (0 < (num_cpus none 0).0)
    × (◌≢◌ {A = ℕ} 0 0 → (num_cpus none 0).0 ≡ 0)
    × ((num_cpus none 0).1 ≡ (num_cpus none 0).0)
    × (num_cpus (some 8) (num_cpus none 0).1 ≡ num_cpus none 0)
num_cpus_lem_example = num_cpus_lem none (some 8) 0 (λ n e. cc)

abbrev object : Pointer
object = record { address = 64; provenance = 3 }

map_address-with_address_example :
    ((map_address with_address_miri object (λ a. a + 1)).address
      ≡ (map_address with_address object (λ a. a + 1)).address)
    × ((map_address with_address_miri object (λ a. a + 1)).provenance ≡ object.provenance)
    × (map_address with_address object (λ a. a + 1) ≡ invalid_mut (64 + 1))
map_address-with_address_example =
    map_address-with_address object (λ a. a + 1) (omega arith) (omega arith)

-- Calls whose closures count themselves and panic, or return.
abbrev panicking : Call
panicking = record {
  force = false;
  me = 1;
  effect = λ s n. record n { inside = n.inside + 1 };
  returns = λ s. false;
}

abbrev forced_call : Call
forced_call = record {
  force = true;
  me = 2;
  effect = λ s n. record n { finished = n.finished + 1 };
  returns = λ s. true;
}

abbrev both : Counts
both = record { inside = 1; finished = 1 }

calls_keep_example :
    ((calls cfg (panicking ∷ forced_call ∷ panicking ∷ []) (fresh_memory Once.init)).0.word
      ≡ Once.word 3)
    × ((calls cfg (panicking ∷ forced_call ∷ panicking ∷ []) (fresh_memory Once.init)).0.counts
        ≡ both)
    × ((calls cfg (panicking ∷ forced_call ∷ panicking ∷ []) (fresh_memory Once.init)).1
        ≡ inr unwound ∷ inl tt ∷ inl tt ∷ [])
calls_keep_example =
    calls_keep true false 19 (panicking ∷ forced_call ∷ panicking ∷ []) (fresh_memory Once.init) new
      done both (inr unwound ∷ inl tt ∷ inl tt ∷ []) refl refl

panic_poisons_example :
    ((calls cfg (panicking ∷ panicking ∷ forced_call ∷ []) (fresh_memory Once.init)).0.word
      ≡ Once.word 3)
    × ((calls cfg (panicking ∷ panicking ∷ forced_call ∷ []) (fresh_memory Once.init)).0.counts
        ≡ both)
    × ((calls cfg (panicking ∷ panicking ∷ forced_call ∷ []) (fresh_memory Once.init)).1
        ≡ inr unwound ∷ inr poisoned ∷ inl tt ∷ [])
panic_poisons_example =
    panic_poisons true false 19 (fresh_memory Once.init) panicking (panicking ∷ []) forced_call refl
      refl (refl, tt) refl
