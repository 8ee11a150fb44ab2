-- ===== src/Barrier/Arrival/Roles.antt =====
-- What a thread that waits at a barrier may rely on, and what it must keep to, with the queue of
-- waiters as a linked list.
use usync.Prelude.{
  ℕ, zero, suc, ◌+◌, ◌≤◌, ◌<◌, true, false, Option, some, List, ◌∷◌, ◌++◌, ◌≡◌, ◌≢◌, bit, update,
  total, length,
}
use usync.Prog.{Prog, Reason}
use usync.Prog.Safe.{Safe}
use usync.Shared.{Memory}
use usync.Shared.Still.{Links, View, view}
use usync.Shared.Queue.Linked.{Distinct}
use usync.Shared.Queue.Chain.{All, first, Chain, Line}
use usync.Barrier.{Word, counting, waiting, is_completed, is_queue_locked}

-- What the holder of QUEUE_LOCKED knows: the part of the queue that it has still to link, in front of
-- the last waiter `base` that caches the tail; the tail; how many waiters it has linked and still owes
-- the count; and the count, once it has read it.
pub record Hold : Type 0 where
  pub path : List ℕ
  pub base : ℕ
  pub tail : ℕ
  pub owed : ℕ
  pub counter : Option ℕ

-- A thread is not in the queue, and has written its own waiter or not; or it is there, and holds
-- QUEUE_LOCKED or not; or it has seen that the barrier is completed.
pub data Phase : Type 0 where
  away : Phase
  ready : Links → Phase
  queued : Phase
  linking : Hold → Phase
  done : Phase

-- The waiter of a thread, the calls of `wait` that it has begun, and where it is in the last one.
pub record Role : Type 0 where
  pub me : ℕ
  pub arrived : ℕ
  pub phase : Phase

abbrev pub at : ℕ → ℕ → Phase → Role
at me arrived phase = record { me = me; arrived = arrived; phase = phase }

abbrev pub queues : Phase → ℕ
queues queued = 1
queues (linking s) = 1
queues _ = 0

abbrev pub holds : Phase → ℕ
holds (linking s) = 1
holds _ = 0

abbrev pub owes : Phase → ℕ
owes (linking s) = s.owed
owes _ = 0

abbrev pub in_queue : Role → ℕ
in_queue r = queues r.phase

abbrev pub holding : Role → ℕ
holding r = holds r.phase

abbrev pub owing : Role → ℕ
owing r = owes r.phase

-- What a role knows by itself.
abbrev pub Local : View Word → ℕ → Phase → Type 0
Local v me (ready k) = v.links me ≡ k
Local v me done = is_completed v.word ≡ true
Local v me _ = Unit

-- What the holder knows of the queue.
abbrev pub Snapshot : (ℕ → Links) → List ℕ → ℕ → ℕ → Phase → Type 0
Snapshot heap fresh base tail (linking s) =
    (s.base ≡ base)
    × (s.tail ≡ tail)
    × ((pushed : List ℕ) × (fresh ≡ pushed ++ s.path))
    × ((c : ℕ) → s.counter ≡ some c → (heap tail).counter ≡ c)
Snapshot heap fresh base tail _ = Unit

-- A thread may stop for any reason.
abbrev pub Allowed : Reason → Type 0
Allowed _ = Unit

-- The head `h` knows the tail, and the count there is not used up.
abbrev pub Settled : (ℕ → Links) → ℕ → Type 0
Settled heap h = (t : ℕ) × ((heap h).tail ≡ some t) × ((heap t).counter ≢ 0)

module _ (size n : ℕ) where
  -- The waiter `x` is that of a thread in the queue.
  abbrev pub Member : (ℕ → Role) → ℕ → Type 0
  Member rs x = (j : ℕ) × (j < n) × (x ≡ j + 1) × (in_queue (rs j) ≡ 1)

  -- The queue behind the head `h`: the waiters `fresh` that are not linked yet, and `counted` ones from
  -- `base` on, which caches the tail.
  pub record Waits (heap : ℕ → Links) (h : ℕ) (rs : ℕ → Role) : Type 0 where
    pub fresh : List ℕ
    pub base : ℕ
    pub tail : ℕ
    pub counted : ℕ
    pub head : h ≡ first fresh base
    pub path : Chain heap fresh base
    pub cached : (heap base).tail ≡ some tail
    pub enough : size + total owing n rs ≤ (heap tail).counter + counted
    pub many : length fresh + counted ≡ total in_queue n rs
    pub members : All (Member rs) fresh
    pub base_member : Member rs base
    pub tail_member : Member rs tail
    pub distinct : Distinct fresh
    pub behind : List ℕ
    pub line : Line heap h behind tail
    pub all_members : All (Member rs) (h ∷ behind)
    pub all_distinct : Distinct (h ∷ behind)
    pub whole : suc (length behind) ≡ total in_queue n rs
    pub exact : (heap tail).counter ≢ 0 → size + total owing n rs ≡ (heap tail).counter + counted
    pub snapshot : (j : ℕ) → j < n → Snapshot heap fresh base tail (rs j).phase

  abbrev pub Open : View Word → (ℕ → Role) → Word → Type 0
  Open v rs (counting zero) = Unit
  Open v rs (counting (suc c)) = (suc c ≡ size) × (total in_queue n rs ≡ 0)
  Open v rs (waiting h k) = Waits v.links h rs

  -- The clients count the calls of `wait` that have begun (`inside`) and returned (`finished`).
  pub record Inv (v : View Word) (rs : ℕ → Role) : Type 0 where
    pub me : (j : ℕ) → (rs j).me ≡ j + 1
    pub began : (j : ℕ) → in_queue (rs j) ≤ (rs j).arrived
    pub arrivals : total (λ (r : Role). r.arrived) n rs ≡ v.counts.inside
    pub locks : total holding n rs ≡ bit (is_queue_locked v.word)
    pub complete : is_completed v.word ≡ true → size ≤ v.counts.inside
    pub returned : v.counts.finished ≢ 0 → is_completed v.word ≡ true
    pub local : (j : ℕ) → j < n → Local v (rs j).me (rs j).phase
    pub queue : Open v rs v.word
    pub settled : (h : ℕ) → v.word ≡ waiting h false → Settled v.links h

  abbrev pub Sees : Role → Memory Word → Type 0
  Sees r m = (rs : ℕ → Role) × (i : ℕ) × (i < n) × (rs i ≡ r) × Inv (view m) rs

  -- A role moves with what it sees if the invariant survives, whoever has the role.
  abbrev pub Goes : Role → View Word → Role → View Word → Type 0
  Goes r v r' v' = (rs : ℕ → Role) (i : ℕ) → i < n → rs i ≡ r → Inv v rs → Inv v' (update rs i r')

  abbrev pub Moves : Role → Memory Word → Role → Memory Word → Type 0
  Moves r m r' m' = Goes r (view m) r' (view m')

  abbrev pub Ok : {A : Type 0} → (A → Role → Type 0) → Prog (Memory Word) A → Role → Type 0
  Ok = Safe Sees Moves Allowed
