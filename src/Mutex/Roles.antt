-- ===== src/Mutex/Roles.antt =====
-- What a thread may rely on, and what it must keep to, while the lock is only taken exclusively.
use usync.Prelude.{ℕ, ◌+◌, ◌≤◌, ◌<◌, false, ◌≡◌, bit, update, total, total-update, le-total, arith}
use usync.Prog.{Prog, Reason, bad_word}
use usync.Shared.{Memory, Counts}
use usync.Shared.Protocol.{Protocol, Sees, Moves, Keeps}
use usync.Shared.Neutral.{IsQueueReason}
use usync.RwLock.State.{State, same, same_eq}

-- What a thread owns, each as 0 or 1: the lock, the QUEUE_LOCKED bit, a place among those that the
-- critical section counts.
pub record Role : Type 0 where
  pub holds : ℕ
  pub queue : ℕ
  pub within : ℕ

abbrev pub outside : Role
outside = record { holds = 0; queue = 0; within = 0 }

-- What the owner of a role knows of any word that it reads.
pub record Knows (r : Role) (s : State) : Type 0 where
  pub holds : r.holds ≤ bit s.locked
  pub queue : r.queue ≤ bit s.queue_locked
  pub no_reader : s.reading ≡ false
  pub queued : bit s.queue_locked ≤ bit s.queued

-- A change of the word with the change of role that goes with it.
pub record Shift (r : Role) (s : State) (r' : Role) (s' : State) : Type 0 where
  pub holds : r'.holds + bit s.locked ≡ r.holds + bit s'.locked
  pub queue : r'.queue + bit s.queue_locked ≡ r.queue + bit s'.queue_locked
  pub no_reader : s'.reading ≡ false
  pub queued : bit s'.queue_locked ≤ bit s'.queued
  pub within : r'.within ≤ r'.holds

pub record Fits (r : Role) (c : Counts) : Type 0 where
  pub within : r.within ≤ r.holds
  pub inside : r.within ≤ c.inside

pub record Step (r : Role) (s : State) (c : Counts) (r' : Role) (s' : State) (c' : Counts)
    : Type 0 where
  pub word : Shift r s r' s'
  pub inside : r'.within + c.inside ≡ r.within + c'.inside

-- A thread may stop for any reason but a wrong state word.
abbrev pub Allowed : Reason → Type 0
Allowed bad_word = ⊥
Allowed _ = Unit

pub IsQueueReason-Allowed : (w : Reason) → IsQueueReason w → Allowed w
IsQueueReason-Allowed bad_word h = h
IsQueueReason-Allowed _ h = tt

-- What stays as it is is a step.
pub Step-refl : (r : Role) (s : State) (c : Counts) → Knows r s → Fits r c → Step r s c r s c
Step-refl r s c k f = ground (arith, k.no_reader, k.queued, f.within)

abbrev pub mutex : Protocol State Role
mutex = record {
  Knows = Knows;
  Fits = Fits;
  Step = Step;
  Allowed = Allowed;
  stay = Step-refl;
  allow = IsQueueReason-Allowed;
  same = same;
  same_eq = same_eq;
}

abbrev pub Ok : {A : Type 0} → (A → Role → Type 0) → Prog (Memory State) A → Role → Type 0
Ok = Keeps mutex

-- The invariant of `n` threads: each owned thing has the one owner that the word shows.
pub record Inv (n : ℕ) (m : Memory State) (rs : ℕ → Role) : Type 0 where
  pub holds : total (λ (r : Role). r.holds) n rs ≡ bit m.word.locked
  pub queue : total (λ (r : Role). r.queue) n rs ≡ bit m.word.queue_locked
  pub inside : total (λ (r : Role). r.within) n rs ≡ m.counts.inside
  pub within : (i : ℕ) → (rs i).within ≤ (rs i).holds
  pub no_reader : m.word.reading ≡ false
  pub queued : bit m.word.queue_locked ≤ bit m.word.queued

pub Inv-Sees :
    (n : ℕ) (m : Memory State) (rs : ℕ → Role) (i : ℕ) → i < n → Inv n m rs → Sees mutex (rs i) m
Inv-Sees n m rs i lt inv = record {
  word = record {
    holds = omega (arith, le-total (λ (r : Role). r.holds) n rs i lt, inv.holds);
    queue = omega (arith, le-total (λ (r : Role). r.queue) n rs i lt, inv.queue);
    no_reader = inv.no_reader;
    queued = inv.queued;
  };
  counts = record {
    within = inv.within i;
    inside = omega (arith, le-total (λ (r : Role). r.within) n rs i lt, inv.inside);
  };
}

pub Moves-Inv :
    (n : ℕ) (m : Memory State) (rs : ℕ → Role) (i : ℕ) (m' : Memory State) (r' : Role)
    → i < n
    → Inv n m rs
    → Moves mutex (rs i) m r' m'
    → Inv n m' (update rs i r')
Moves-Inv n m rs i m' r' lt inv mv = record {
  holds =
      omega (arith, total-update (λ (r : Role). r.holds) n rs i r' lt, inv.holds, mv.word.holds);
  queue =
      omega (arith, total-update (λ (r : Role). r.queue) n rs i r' lt, inv.queue, mv.word.queue);
  inside = omega (arith, total-update (λ (r : Role). r.within) n rs i r' lt, inv.inside, mv.inside);
  within = λ j. ground (arith, inv.within j, mv.word.within);
  no_reader = mv.word.no_reader;
  queued = mv.word.queued;
}
