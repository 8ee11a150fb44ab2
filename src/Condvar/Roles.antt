-- ===== src/Condvar/Roles.antt =====
-- What a thread may rely on, and what it must keep to, at a condition variable and the mutexes
-- beside it.
use usync.Prelude.{
  ℕ, ◌+◌, ◌*◌, ◌≤◌, ◌<◌, true, false, ◌≡◌, ◌≢◌, refl, inl, inr, ◌==◌, bit, update, total,
  total-update, le-total, two_le_total, after-update, Bool-cases, arith,
}
use usync.Prog.{Prog}
use usync.Shared.{Memory, Counts}
use usync.Shared.Protocol.{Protocol, Sees, Moves, Keeps}
use usync.Condvar.{Word, Words, mutex_part}
use usync.Mutex.Roles as Mutex
use usync.Mutex.Roles.{Allowed, IsQueueReason-Allowed}

-- What a thread owns of each mutex; the QUEUE_LOCKED bit of the condition variable, as 0 or 1; and,
-- with that bit, a number of signals that are in the word.
pub record Role : Type 0 where
  pub locks : ℕ → Mutex.Role
  pub queue : ℕ
  pub signals : ℕ

abbrev pub locked : Word → ℕ
locked w = bit w.queue_locked

-- A word without waiters is EMPTY, and signals are counted up to SIGNAL_MASK.
pub record IsWord (w : Word) : Type 0 where
  pub signals : w.signals ≤ 7
  pub no_signal : w.head ≡ 0 → w.signals ≡ 0
  pub no_lock : w.head ≡ 0 → w.queue_locked ≡ false

pub record Knows (r : Role) (s : Words) : Type 0 where
  pub queue : r.queue ≤ locked s.condvar
  pub signals : r.signals ≤ s.condvar.signals
  pub owned : r.signals ≤ 7 * r.queue
  pub word : IsWord s.condvar
  pub mutex : (l : ℕ) → Mutex.Knows (r.locks l) (s.mutexes l).state
  pub counts : (l : ℕ) → Mutex.Fits (r.locks l) (s.mutexes l).counts

-- While another thread has QUEUE_LOCKED, signals are only added.
pub record Step (r : Role) (s : Words) (r' : Role) (s' : Words) : Type 0 where
  pub queue : r'.queue + locked s.condvar ≡ r.queue + locked s'.condvar
  pub signals : r'.signals ≤ s'.condvar.signals
  pub owned : r'.signals ≤ 7 * r'.queue
  pub kept : locked s.condvar ≢ r.queue → s.condvar.signals ≤ s'.condvar.signals
  pub word : IsWord s'.condvar
  pub mutex :
      (l : ℕ)
      → Mutex.Step
          (r.locks l)
          (s.mutexes l).state
          (s.mutexes l).counts
          (r'.locks l)
          (s'.mutexes l).state
          (s'.mutexes l).counts

pub Step-refl : (r : Role) (s : Words) (c : Counts) → Knows r s → Unit {0} → Step r s r s
Step-refl r s c k f = record {
  queue = refl;
  signals = k.signals;
  owned = k.owned;
  kept = λ h. omega arith;
  word = k.word;
  mutex = λ l. Mutex.Step-refl (r.locks l) _ _ (k.mutex l) (k.counts l);
}

pub never : (s t : Words) → false ≡ true → s ≡ t
never s t h = cc

-- Words are compared as the condition variable's: the accesses to a mutex compare its own.
abbrev pub condvar : Protocol Words Role
condvar = record {
  Knows = Knows;
  Fits = λ r c. Unit;
  Step = λ r s c r' s' c'. Step r s r' s';
  Allowed = Allowed;
  stay = Step-refl;
  allow = IsQueueReason-Allowed;
  same = λ s t. false;
  same_eq = never;
}

abbrev pub Ok : {A : Type 0} → (A → Role → Type 0) → Prog (Memory Words) A → Role → Type 0
Ok = Keeps condvar

-- The invariant of `n` threads.
pub record Inv (n : ℕ) (m : Memory Words) (rs : ℕ → Role) : Type 0 where
  pub queue : total (λ (r : Role). r.queue) n rs ≡ locked m.word.condvar
  pub signals : (i : ℕ) → i < n → (rs i).signals ≤ m.word.condvar.signals
  pub owned : (i : ℕ) → (rs i).signals ≤ 7 * (rs i).queue
  pub word : IsWord m.word.condvar
  pub mutex : (l : ℕ) → Mutex.Inv n (mutex_part l m) (λ i. (rs i).locks l)

pub Inv-Sees :
    (n : ℕ) (m : Memory Words) (rs : ℕ → Role) (i : ℕ) → i < n → Inv n m rs → Sees condvar (rs i) m
Inv-Sees n m rs i lt inv = record {
  word = record {
    queue = omega (arith, le-total (λ (r : Role). r.queue) n rs i lt, inv.queue);
    signals = inv.signals i lt;
    owned = inv.owned i;
    word = inv.word;
    mutex = λ l. (Mutex.Inv-Sees n _ _ i lt (inv.mutex l)).word;
    counts = λ l. (Mutex.Inv-Sees n _ _ i lt (inv.mutex l)).counts;
  };
  counts = tt;
}

-- What another thread has seen of the signals stays true.
others-signals :
    (n : ℕ) (m : Memory Words) (rs : ℕ → Role) (i j : ℕ) (m' : Memory Words) (r' : Role)
    → i < n
    → j < n
    → i ≢ j
    → Inv n m rs
    → Moves condvar (rs i) m r' m'
    → (rs j).signals ≤ m'.word.condvar.signals
others-signals n m rs i j m' r' hi hj ne inv mv =
    elim (Bool-cases (locked m.word.condvar == (rs i).queue)) [
      | inl mine ↦
          let two = two_le_total (λ (r : Role). r.queue) n rs i j hi hj ne in
          let e : locked m.word.condvar ≡ (rs i).queue = ground arith in
          omega (arith, two, inv.queue, inv.owned j, e)
      | inr other ↦
          let e : locked m.word.condvar ≢ (rs i).queue = ground arith in
          omega (arith, inv.signals j hj, mv.kept e)
    ]

pub Moves-Inv :
    (n : ℕ) (m : Memory Words) (rs : ℕ → Role) (i : ℕ) (m' : Memory Words) (r' : Role)
    → i < n
    → Inv n m rs
    → Moves condvar (rs i) m r' m'
    → Inv n m' (update rs i r')
Moves-Inv n m rs i m' r' lt inv mv = record {
  queue = omega (arith, total-update (λ (r : Role). r.queue) n rs i r' lt, inv.queue, mv.queue);
  signals = λ j h. elim (Bool-cases (i == j)) [
    | inl same ↦ rw same mv.signals
    | inr other ↦ rw other (others-signals n m rs i j m' r' lt h (ground arith) inv mv)
  ];
  owned = λ j. elim (Bool-cases (i == j)) [
    | inl same ↦ rw same mv.owned
    | inr other ↦ rw other (inv.owned j)
  ];
  word = mv.word;
  mutex = λ l. rw (after-update (λ (r : Role). r.locks l) rs i r') (
      Mutex.Moves-Inv n (mutex_part l m) (λ j. (rs j).locks l) i (mutex_part l m') (r'.locks l) lt
        (inv.mutex l) (mv.mutex l));
}
