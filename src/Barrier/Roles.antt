-- ===== src/Barrier/Roles.antt =====
-- What a thread may rely on, and what it must keep to, at a barrier.
use usync.Prelude.{
  ℕ, ◌+◌, ◌≤◌, ◌<◌, ◌≡◌, ◌≢◌, refl, ◌==◌, bit, update, total, total-update, le-total, Bool-cases,
  inl, inr, arith,
}
use usync.Prog.{Prog, Reason, bad_word, not_queued}
use usync.Shared.{Memory, Counts}
use usync.Shared.Neutral.{IsQueueReason}
use usync.Shared.Protocol.{Protocol, Sees, Moves, Keeps}
use usync.Barrier.{Word, same, same_eq, is_completed, is_queue_locked}

-- What a thread owns, each as 0 or 1: the QUEUE_LOCKED bit, the leadership that it has not counted
-- yet; and whether it has seen the word COMPLETED.
pub record Role : Type 0 where
  pub queue : ℕ
  pub leads : ℕ
  pub saw : ℕ

abbrev pub locks : Word → ℕ
locks w = bit (is_queue_locked w)

abbrev pub completes : Word → ℕ
completes w = bit (is_completed w)

pub record Knows (r : Role) (w : Word) : Type 0 where
  pub queue : r.queue ≤ locks w
  pub saw : r.saw ≤ completes w

pub record Fits (r : Role) (c : Counts) : Type 0 where
  pub leads : r.leads ≤ r.saw

-- Once the word says COMPLETED it does so for good.
pub record Step (r : Role) (w : Word) (c : Counts) (r' : Role) (w' : Word) (c' : Counts)
    : Type 0 where
  pub queue : r'.queue + locks w ≡ r.queue + locks w'
  pub leads : r'.leads + c'.finished + completes w ≡ r.leads + c.finished + completes w'
  pub leader : r'.leads ≤ r'.saw
  pub saw : r'.saw ≤ completes w'
  pub final : completes w ≤ completes w'
  pub passed : c'.inside ≢ c.inside → completes w' ≡ 1

abbrev pub Allowed : Reason → Type 0
Allowed bad_word = ⊥
Allowed not_queued = ⊥
Allowed _ = Unit

pub IsQueueReason-Allowed : (w : Reason) → IsQueueReason w → Allowed w
IsQueueReason-Allowed bad_word h = h
IsQueueReason-Allowed not_queued h = h
IsQueueReason-Allowed _ h = tt

pub Step-refl : (r : Role) (w : Word) (c : Counts) → Knows r w → Fits r c → Step r w c r w c
Step-refl r w c k f = record {
  queue = refl;
  leads = refl;
  leader = f.leads;
  saw = k.saw;
  final = omega arith;
  passed = λ other. absurd (other refl);
}

abbrev pub barrier : Protocol Word Role
barrier = record {
  Knows = Knows;
  Fits = Fits;
  Step = Step;
  Allowed = Allowed;
  stay = Step-refl;
  allow = IsQueueReason-Allowed;
  same = same;
  same_eq = same_eq;
}

abbrev pub Ok : {A : Type 0} → (A → Role → Type 0) → Prog (Memory Word) A → Role → Type 0
Ok = Keeps barrier

-- The invariant of `n` threads at a barrier that starts as `first`.
pub record Inv (first : Word) (n : ℕ) (m : Memory Word) (rs : ℕ → Role) : Type 0 where
  pub queue : total (λ (r : Role). r.queue) n rs ≡ locks m.word
  pub leads :
      total (λ (r : Role). r.leads) n rs + m.counts.finished + completes first ≡ completes m.word
  pub leader : (i : ℕ) → (rs i).leads ≤ (rs i).saw
  pub saw : (i : ℕ) → (rs i).saw ≤ completes m.word
  pub passed : m.counts.inside ≢ 0 → completes m.word ≡ 1

pub Inv-Sees :
    (first : Word) (n : ℕ) (m : Memory Word) (rs : ℕ → Role) (i : ℕ)
    → i < n
    → Inv first n m rs
    → Sees barrier (rs i) m
Inv-Sees first n m rs i lt inv = record {
  word = record {
    queue = omega (arith, le-total (λ (r : Role). r.queue) n rs i lt, inv.queue);
    saw = inv.saw i;
  };
  counts = record { leads = inv.leader i };
}

pub Moves-Inv :
    (first : Word) (n : ℕ) (m : Memory Word) (rs : ℕ → Role) (i : ℕ) (m' : Memory Word) (r' : Role)
    → i < n
    → Inv first n m rs
    → Moves barrier (rs i) m r' m'
    → Inv first n m' (update rs i r')
Moves-Inv first n m rs i m' r' lt inv mv = record {
  queue = omega (arith, total-update (λ (r : Role). r.queue) n rs i r' lt, inv.queue, mv.queue);
  leads = omega (arith, total-update (λ (r : Role). r.leads) n rs i r' lt, inv.leads, mv.leads);
  leader = λ j. ground (arith, inv.leader j, mv.leader);
  saw = λ j. elim (Bool-cases (i == j)) [
    | inl same ↦ rw same mv.saw
    | inr other ↦ rw other (omega (arith, inv.saw j, mv.final))
  ];
  passed = λ h. elim (Bool-cases (m'.counts.inside == m.counts.inside)) [
    | inl still ↦ ground (arith, inv.passed, mv.final)
    | inr other ↦ mv.passed (ground arith)
  ];
}
