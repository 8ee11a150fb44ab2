-- ===== src/RwLock/Roles.antt =====
-- What a thread may rely on, and what it must keep to, while nobody waits for the lock: all take it,
-- shared or exclusively, by the operations that do not block.
use usync.Prelude.{
  ℕ, ◌+◌, ◌≤◌, ◌<◌, false, ◌≡◌, bit, update, total, total-update, le-total, min, arith,
}
use usync.Prog.{Prog, Reason, bad_word, not_queued}
use usync.Shared.{Memory, Counts}
use usync.Shared.Protocol.{Protocol, Sees, Moves, Keeps}
use usync.Shared.Neutral.{IsQueueReason}
use usync.RwLock.State.{State, same, same_eq}

-- What a thread owns, each as 0 or 1: the lock, a share of it, and a place among the writers and
-- among the readers that the critical sections count.
pub record Role : Type 0 where
  pub writes : ℕ
  pub reads : ℕ
  pub writing : ℕ
  pub reading : ℕ

-- The words of a lock without waiters: READING is set as long as there are readers.
pub record IsWord (s : State) : Type 0 where
  pub queued : s.queued ≡ false
  pub queue_locked : s.queue_locked ≡ false
  pub readers : bit s.reading ≡ min s.remaining 1
  pub held : bit s.reading ≤ bit s.locked

pub record Knows (r : Role) (s : State) : Type 0 where
  pub writes : r.writes + bit s.reading ≤ bit s.locked
  pub reads : r.reads ≤ s.remaining
  pub word : IsWord s

pub record Fits (r : Role) (c : Counts) : Type 0 where
  pub writing : r.writing ≤ r.writes
  pub reading : r.reading ≤ r.reads
  pub writers : r.writing ≤ c.inside
  pub readers : r.reading ≤ c.finished

pub record Step (r : Role) (s : State) (c : Counts) (r' : Role) (s' : State) (c' : Counts)
    : Type 0 where
  pub writes : r'.writes + bit s.locked + bit s'.reading ≡ r.writes + bit s'.locked + bit s.reading
  pub reads : r'.reads + s.remaining ≡ r.reads + s'.remaining
  pub word : IsWord s'
  pub writing : r'.writing ≤ r'.writes
  pub reading : r'.reading ≤ r'.reads
  pub writers : r'.writing + c.inside ≡ r.writing + c'.inside
  pub readers : r'.reading + c.finished ≡ r.reading + c'.finished

abbrev pub Allowed : Reason → Type 0
Allowed bad_word = ⊥
Allowed not_queued = ⊥
Allowed _ = Unit

pub IsQueueReason-Allowed : (w : Reason) → IsQueueReason w → Allowed w
IsQueueReason-Allowed bad_word h = h
IsQueueReason-Allowed not_queued h = h
IsQueueReason-Allowed _ h = tt

pub Step-refl : (r : Role) (s : State) (c : Counts) → Knows r s → Fits r c → Step r s c r s c
Step-refl r s c k f = record {
  writes = omega arith;
  reads = omega arith;
  word = k.word;
  writing = f.writing;
  reading = f.reading;
  writers = omega arith;
  readers = omega arith;
}

abbrev pub shared_lock : Protocol State Role
shared_lock = record {
  Knows = Knows;
  Fits = Fits;
  Step = Step;
  Allowed = Allowed;
  stay = Step-refl;
  allow = IsQueueReason-Allowed;
  same = same;
  same_eq = same_eq;
}

abbrev pub Ok : {A : Type 0} → (A → Role → Type 0) → Prog (Memory State) A → Role → Type 0
Ok = Keeps shared_lock

-- The invariant of `n` threads.
pub record Inv (n : ℕ) (m : Memory State) (rs : ℕ → Role) : Type 0 where
  pub writes : total (λ (r : Role). r.writes) n rs + bit m.word.reading ≡ bit m.word.locked
  pub reads : total (λ (r : Role). r.reads) n rs ≡ m.word.remaining
  pub word : IsWord m.word
  pub writing : (i : ℕ) → (rs i).writing ≤ (rs i).writes
  pub reading : (i : ℕ) → (rs i).reading ≤ (rs i).reads
  pub writers : total (λ (r : Role). r.writing) n rs ≡ m.counts.inside
  pub readers : total (λ (r : Role). r.reading) n rs ≡ m.counts.finished

pub Inv-Sees :
    (n : ℕ) (m : Memory State) (rs : ℕ → Role) (i : ℕ)
    → i < n
    → Inv n m rs
    → Sees shared_lock (rs i) m
Inv-Sees n m rs i lt inv = record {
  word = record {
    writes = omega (arith, le-total (λ (r : Role). r.writes) n rs i lt, inv.writes);
    reads = omega (arith, le-total (λ (r : Role). r.reads) n rs i lt, inv.reads);
    word = inv.word;
  };
  counts = record {
    writing = inv.writing i;
    reading = inv.reading i;
    writers = omega (arith, le-total (λ (r : Role). r.writing) n rs i lt, inv.writers);
    readers = omega (arith, le-total (λ (r : Role). r.reading) n rs i lt, inv.readers);
  };
}

pub Moves-Inv :
    (n : ℕ) (m : Memory State) (rs : ℕ → Role) (i : ℕ) (m' : Memory State) (r' : Role)
    → i < n
    → Inv n m rs
    → Moves shared_lock (rs i) m r' m'
    → Inv n m' (update rs i r')
Moves-Inv n m rs i m' r' lt inv mv = record {
  writes = omega (arith, total-update (λ (r : Role). r.writes) n rs i r' lt, inv.writes, mv.writes);
  reads = omega (arith, total-update (λ (r : Role). r.reads) n rs i r' lt, inv.reads, mv.reads);
  word = mv.word;
  writing = λ j. ground (arith, inv.writing j, mv.writing);
  reading = λ j. ground (arith, inv.reading j, mv.reading);
  writers =
      omega (arith, total-update (λ (r : Role). r.writing) n rs i r' lt, inv.writers, mv.writers);
  readers =
      omega (arith, total-update (λ (r : Role). r.reading) n rs i r' lt, inv.readers, mv.readers);
}
