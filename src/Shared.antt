-- ===== src/Shared.antt =====
-- The memory that threads share, and the accesses to it (src/shared/).
-- A `Waiter` lives on the stack of the thread that waits; here it is a member of a heap, and a
-- pointer to it is its number p. The waiter is aligned to 16, so its address is 16 * p.
pub mod Spin
pub mod Parker
pub mod Queue
pub mod Pointer
pub mod Neutral
pub mod Still
pub mod Protocol
use usync.Prelude.{
  ℕ, zero, suc, ◌+◌, Bool, true, false, ◌&&◌, ◌||◌, not, Option, none, some, ◌≡◌, if◌then◌else◌,
  ◌==◌, update,
}
use usync.Prog.{Prog, access, look, write, ◌>>=◌, ◌>>◌, Reason}

-- `AtomicPtr<Event>` of a parker: null, the sentinel `Parker::notified()`, or the event on the
-- owner's stack.
pub data EventPtr : Type 0 where
  null : EventPtr
  notified : EventPtr
  registered : EventPtr

-- `Event`, with the wake-up token that `std::thread` keeps for the thread.
pub record Event : Type 0 where
  pub has_thread : Bool
  pub is_set : Bool
  pub token : Bool

pub record Waiter : Type 0 where
  pub next : Option ℕ
  pub prev : Option ℕ
  pub tail : Option ℕ
  pub waiting_on : Option ℕ
  pub counter : ℕ
  pub flags : ℕ
  pub parker : EventPtr
  pub event : Event

-- `Event::new()`
abbrev pub new_event : Event
new_event = record { has_thread = false; is_set = false; token = false }

-- `Waiter::default()`
abbrev pub new_waiter : Waiter
new_waiter = record {
  next = none;
  prev = none;
  tail = none;
  waiting_on = none;
  counter = 0;
  flags = 0;
  parker = null;
  event = new_event;
}

-- What the clients count, and no code reads; each client says what. For most it is how many of them
-- are in a critical section or a closure, and how many have finished one.
pub record Counts : Type 0 where
  pub inside : ℕ
  pub finished : ℕ

-- The state word of a primitive, the waiters, the clock and the counts.
pub record Memory (S : Type 0) : Type 0 where
  pub word : S
  pub heap : ℕ → Waiter
  pub clock : ℕ
  pub counts : Counts

abbrev pub no_counts : Counts
no_counts = record { inside = 0; finished = 0 }

-- Memory before anything has happened.
abbrev pub fresh_memory : {S : Type 0} → S → Memory S
fresh_memory s = record { word = s; heap = λ _. new_waiter; clock = 0; counts = no_counts }

-- A change of the counts.
abbrev pub count : {S : Type 0} → (Counts → Counts) → Prog (Memory S) (Unit {0})
count f = write (λ m. record m { counts = f m.counts })

-- What is fixed for a run: the target's instruction set (the `cfg` of rwlock.rs), the number of
-- cores, and a bound on the rounds of each loop. The bound is in every theorem a variable.
pub record Config : Type 0 where
  pub x86 : Bool
  pub multi_core : Bool
  pub fuel : ℕ

abbrev pub with_waiter : {S : Type 0} → ℕ → (Waiter → Waiter) → Memory S → Memory S
with_waiter p f m = record m { heap = update m.heap p (f (m.heap p)) }

-- A read of a cell of waiter `p`, and a write to one.
abbrev pub read : {S A : Type 0} → ℕ → (Waiter → A) → Prog (Memory S) A
read p f = look (λ m. f (m.heap p))

abbrev pub modify : {S : Type 0} → ℕ → (Waiter → Waiter) → Prog (Memory S) (Unit {0})
modify p f = write (with_waiter p f)

-- The accesses to the state word. `same` compares two words as the machine does.
module _ {S : Type 0} where
  abbrev pub load : Prog (Memory S) S
  load = look (λ m. m.word)

  -- `swap`, `fetch_add`, `fetch_sub`, `fetch_or`: the old word is returned.
  abbrev pub fetch : (S → S) → Prog (Memory S) S
  fetch f = access (λ c m. record m { word = f m.word }) (λ c m. m.word)

  -- `compare_exchange`, and `compare_exchange_weak`, which may fail for no reason; `none` is
  -- `Ok(_)`, and `some e` is `Err(e)`.
  abbrev pub cas_result : (S → S → Bool) → Bool → S → S → Option S
  cas_result same spurious old now = if same now old && not spurious then none else some now

  abbrev pub cas_word : (S → S → Bool) → Bool → S → S → S → S
  cas_word same spurious old new now = if same now old && not spurious then new else now

  abbrev pub cas : (S → S → Bool) → S → S → Prog (Memory S) (Option S)
  cas same old new =
      access (λ c m. record m { word = cas_word same false old new m.word })
        (λ c m. cas_result same false old m.word)

  abbrev pub cas_weak : (S → S → Bool) → S → S → Prog (Memory S) (Option S)
  cas_weak same old new =
      access (λ c m. record m { word = cas_word same c old new m.word })
        (λ c m. cas_result same c old m.word)

-- `NonNull::new`
abbrev pub non_null : ℕ → Option ℕ
non_null zero = none
non_null (suc p) = some (suc p)
