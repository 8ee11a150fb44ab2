-- ===== src/Condvar.antt =====
-- src/condvar.rs: the condition variable, beside the mutexes that its waiters have given up.
pub mod Notify
pub mod Wait
pub mod Signals
pub mod Waking
pub mod Roles
pub mod Rules
pub mod Requeue
pub mod Unpark
pub mod Notifying
pub mod Waiting
pub mod Client
pub mod Exclusion
use usync.Prelude.{
  ℕ, zero, suc, ◌+◌, ◌-◌, Bool, true, false, ◌&&◌, ◌||◌, not, Option, none, some, ◌≡◌, ◌==◌,
  bool_eq, bool_eq_iff, update, arith,
}
use usync.Prog.{Prog, ret, act, halt}
use usync.Shared.{Memory, Counts, cas_weak}
use usync.RwLock.State.{State}

-- The state word: SIGNAL_MASK has the three low bits, QUEUE_LOCKED the next one, and the remaining
-- bits are the waiter at the head of the queue.
pub record Word : Type 0 where
  pub signals : ℕ
  pub queue_locked : Bool
  pub head : ℕ

-- EMPTY, the word of `Condvar::new`
abbrev pub init : Word
init = record { signals = 0; queue_locked = false; head = 0 }

abbrev pub same : Word → Word → Bool
same v w = v.signals == w.signals && bool_eq v.queue_locked w.queue_locked && v.head == w.head

pub same_eq : (v w : Word) → same v w ≡ true → v ≡ w
same_eq v w h = ground arith

abbrev pub is_empty : Word → Bool
is_empty w = same w init

-- The state word of a mutex, with what its own clients count.
pub record Guarded : Type 0 where
  pub state : State
  pub counts : Counts

-- The words of the condition variable and of the mutexes. The `waiting_on` of a waiter is the
-- number of a mutex.
pub record Words : Type 0 where
  pub condvar : Word
  pub mutexes : ℕ → Guarded

abbrev pub Code : Type 0 → Type 0
Code A = Prog (Memory Words) A

-- Code for a part of the memory, in the whole of it.
unfoldable pub zoom : {M N A : Type 0} → (part : M → N) → (whole : M → N → M) → Prog N A → Prog M A
zoom part whole (ret a) = ret a
zoom part whole (act e k) =
    act (λ c m. whole m (e c (part m))) (λ c m. zoom part whole (k c (part m)))
zoom part whole (halt r) = halt r

-- The memory that the code of the condition variable sees, and the one that a mutex sees.
abbrev pub word_part : Memory Words → Memory Word
word_part m = record { word = m.word.condvar; heap = m.heap; clock = m.clock; counts = m.counts }

abbrev pub word_whole : Memory Words → Memory Word → Memory Words
word_whole m p = record {
  word = record { condvar = p.word; mutexes = m.word.mutexes };
  heap = p.heap;
  clock = p.clock;
  counts = p.counts;
}

abbrev pub mutex_part : ℕ → Memory Words → Memory State
mutex_part l m = record {
  word = (m.word.mutexes l).state;
  heap = m.heap;
  clock = m.clock;
  counts = (m.word.mutexes l).counts;
}

abbrev pub mutex_whole : ℕ → Memory Words → Memory State → Memory Words
mutex_whole l m p = record {
  word = record {
    condvar = m.word.condvar;
    mutexes = update m.word.mutexes l (record { state = p.word; counts = p.counts });
  };
  heap = p.heap;
  clock = p.clock;
  counts = m.counts;
}

abbrev pub on_word : {A : Type 0} → Prog (Memory Word) A → Code A
on_word p = zoom word_part word_whole p

abbrev pub on_mutex : {A : Type 0} → ℕ → Prog (Memory State) A → Code A
on_mutex l p = zoom (mutex_part l) (mutex_whole l) p
