-- ===== src/Barrier/Arrival/Knowledge.antt =====
-- What the roles at a barrier know of the queue, by their phase.
use usync.Prelude.{ℕ, ◌≤◌, List, ◌∷◌, ◌≡◌, refl, ap, ◌∙◌, arith}
use usync.Shared.Still.{Links}
use usync.Shared.Queue.Chain.{Alike}
use usync.Barrier.Arrival.Roles.{
  Phase, away, ready, queued, linking, done, holds, queues, owes, Snapshot,
}

pub alike : {k k' : Links} → k' ≡ k → Alike k k'
alike e = (ap (λ (l : Links). l.next) e, ap (λ (l : Links). l.tail) e)

-- Who does not hold QUEUE_LOCKED need not know the queue.
pub free-Snapshot :
    (heap : ℕ → Links) (fresh : List ℕ) (base tail : ℕ) (p : Phase)
    → holds p ≡ 0
    → Snapshot heap fresh base tail p
free-Snapshot heap fresh base tail away h = tt
free-Snapshot heap fresh base tail (ready k) h = tt
free-Snapshot heap fresh base tail queued h = tt
free-Snapshot heap fresh base tail (linking s) h = absurd (omega (arith, h))
free-Snapshot heap fresh base tail done h = tt

-- What the holder knows while another waiter is pushed or written.
pub same-Snapshot :
    (heap heap' : ℕ → Links) (fresh : List ℕ) (base tail : ℕ) (p : Phase)
    → heap' tail ≡ heap tail
    → Snapshot heap fresh base tail p
    → Snapshot heap' fresh base tail p
same-Snapshot heap heap' fresh base tail away e s = tt
same-Snapshot heap heap' fresh base tail (ready k) e s = tt
same-Snapshot heap heap' fresh base tail queued e s = tt
same-Snapshot heap heap' fresh base tail (linking s) e (b, t, p, counter) =
    (b, t, p, λ c h. ap (λ (l : Links). l.counter) e ∙ counter c h)
same-Snapshot heap heap' fresh base tail done e s = tt

pub push-Snapshot :
    (heap : ℕ → Links) (x : ℕ) (fresh : List ℕ) (base tail : ℕ) (p : Phase)
    → Snapshot heap fresh base tail p
    → Snapshot heap (x ∷ fresh) base tail p
push-Snapshot heap x fresh base tail away s = tt
push-Snapshot heap x fresh base tail (ready k) s = tt
push-Snapshot heap x fresh base tail queued s = tt
push-Snapshot heap x fresh base tail (linking s) (b, t, (pushed, e), counter) =
    (b, t, (x ∷ pushed, ap (λ l. x ∷ l) e), counter)
push-Snapshot heap x fresh base tail done s = tt

pub holds_queues : (p : Phase) → holds p ≤ queues p
holds_queues away = omega arith
holds_queues (ready k) = omega arith
holds_queues queued = omega arith
holds_queues (linking s) = omega arith
holds_queues done = omega arith

pub owes_none : (p : Phase) → queues p ≡ 0 → owes p ≡ 0
owes_none away h = refl
owes_none (ready k) h = refl
owes_none queued h = refl
owes_none (linking s) h = absurd (omega (arith, h))
owes_none done h = refl

-- Who does not hold QUEUE_LOCKED owes nothing.
pub free_owes : (p : Phase) → holds p ≡ 0 → owes p ≡ 0
free_owes away h = refl
free_owes (ready k) h = refl
free_owes queued h = refl
free_owes (linking s) h = absurd (omega (arith, h))
free_owes done h = refl
