-- ===== src/Once/Roles.antt =====
-- What a thread may rely on, and what it must keep to, around a `Once`.
use usync.Prelude.{
  ℕ, ◌+◌, ◌≤◌, ◌<◌, ◌≡◌, ◌≢◌, refl, ◌==◌, bit, update, total, total-update, le-total, Bool-cases,
  inl, inr, arith,
}
use usync.Prog.{Prog, Reason, bad_word, not_queued}
use usync.Shared.{Memory, Counts}
use usync.Shared.Neutral.{IsQueueReason}
use usync.Shared.Protocol.{Protocol, Sees, Moves, Keeps}
use usync.Once.{Word, same, same_eq}

-- What a thread owns, each as 0 or 1: the call, a closure that runs, a closure that has returned
-- while the word still says CALLING; and whether it has seen the word COMPLETED.
pub record Role : Type 0 where
  pub calling : ℕ
  pub within : ℕ
  pub ended : ℕ
  pub saw : ℕ

abbrev pub idle : Role
idle = record { calling = 0; within = 0; ended = 0; saw = 0 }

-- The states without a queue have no queue, and there are no others.
pub record IsWord (w : Word) : Type 0 where
  pub tag : w.tag < 4
  pub head : w.tag ≢ 1 → w.head ≡ 0

abbrev pub calls : Word → ℕ
calls w = bit (w.tag == 1)

abbrev pub completed : Word → ℕ
completed w = bit (w.tag == 3)

pub record Knows (r : Role) (w : Word) : Type 0 where
  pub calling : r.calling ≤ calls w
  pub saw : r.saw ≤ completed w
  pub word : IsWord w

pub record Fits (r : Role) (c : Counts) : Type 0 where
  pub owned : r.within + r.ended ≤ r.calling
  pub inside : r.within ≤ c.inside
  pub finished : r.ended ≤ c.finished

-- Once the word says COMPLETED it does so for good.
pub record Step (r : Role) (w : Word) (c : Counts) (r' : Role) (w' : Word) (c' : Counts)
    : Type 0 where
  pub calling : r'.calling + calls w ≡ r.calling + calls w'
  pub inside : r'.within + c.inside ≡ r.within + c'.inside
  pub finished : r'.ended + completed w' + c.finished ≡ r.ended + completed w + c'.finished
  pub owned : r'.within + r'.ended ≤ r'.calling
  pub saw : r'.saw ≤ completed w'
  pub final : completed w ≤ completed w'
  pub word : IsWord w'

abbrev pub Allowed : Reason → Type 0
Allowed bad_word = ⊥
Allowed not_queued = ⊥
Allowed _ = Unit

pub IsQueueReason-Allowed : (w : Reason) → IsQueueReason w → Allowed w
IsQueueReason-Allowed bad_word h = h
IsQueueReason-Allowed not_queued h = h
IsQueueReason-Allowed _ h = tt

pub Step-refl : (r : Role) (w : Word) (c : Counts) → Knows r w → Fits r c → Step r w c r w c
Step-refl r w c k f = record {
  calling = refl;
  inside = refl;
  finished = refl;
  owned = f.owned;
  saw = k.saw;
  final = omega arith;
  word = k.word;
}

abbrev pub once : Protocol Word Role
once = record {
  Knows = Knows;
  Fits = Fits;
  Step = Step;
  Allowed = Allowed;
  stay = Step-refl;
  allow = IsQueueReason-Allowed;
  same = same;
  same_eq = same_eq;
}

abbrev pub Ok : {A : Type 0} → (A → Role → Type 0) → Prog (Memory Word) A → Role → Type 0
Ok = Keeps once

-- The invariant of `n` threads: one caller while the word says so, and closures that have returned
-- are accounted for by their caller until the word says COMPLETED.
pub record Inv (n : ℕ) (m : Memory Word) (rs : ℕ → Role) : Type 0 where
  pub calling : total (λ (r : Role). r.calling) n rs ≡ calls m.word
  pub inside : total (λ (r : Role). r.within) n rs ≡ m.counts.inside
  pub finished : total (λ (r : Role). r.ended) n rs + completed m.word ≡ m.counts.finished
  pub owned : (i : ℕ) → (rs i).within + (rs i).ended ≤ (rs i).calling
  pub saw : (i : ℕ) → (rs i).saw ≤ completed m.word
  pub word : IsWord m.word

pub Inv-Sees :
    (n : ℕ) (m : Memory Word) (rs : ℕ → Role) (i : ℕ) → i < n → Inv n m rs → Sees once (rs i) m
Inv-Sees n m rs i lt inv = record {
  word = record {
    calling = omega (arith, le-total (λ (r : Role). r.calling) n rs i lt, inv.calling);
    saw = inv.saw i;
    word = inv.word;
  };
  counts = record {
    owned = inv.owned i;
    inside = omega (arith, le-total (λ (r : Role). r.within) n rs i lt, inv.inside);
    finished = omega (arith, le-total (λ (r : Role). r.ended) n rs i lt, inv.finished);
  };
}

pub Moves-Inv :
    (n : ℕ) (m : Memory Word) (rs : ℕ → Role) (i : ℕ) (m' : Memory Word) (r' : Role)
    → i < n
    → Inv n m rs
    → Moves once (rs i) m r' m'
    → Inv n m' (update rs i r')
Moves-Inv n m rs i m' r' lt inv mv = record {
  calling =
      omega (arith, total-update (λ (r : Role). r.calling) n rs i r' lt, inv.calling, mv.calling);
  inside = omega (arith, total-update (λ (r : Role). r.within) n rs i r' lt, inv.inside, mv.inside);
  finished =
      omega (arith, total-update (λ (r : Role). r.ended) n rs i r' lt, inv.finished, mv.finished);
  owned = λ j. ground (arith, inv.owned j, mv.owned);
  saw = λ j. elim (Bool-cases (i == j)) [
    | inl same ↦ rw same mv.saw
    | inr other ↦ rw other (omega (arith, inv.saw j, mv.final))
  ];
  word = mv.word;
}
