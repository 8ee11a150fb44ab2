-- ===== src/Shared/Parker/Returning.antt =====
-- The owner of a parker, alone, once the unparking is over.
use usync.Prelude.{ℕ, zero, suc, ◌≤◌, ◌<◌, ◌≡◌, refl, false, inl, arith}
use usync.Prog.{
  Prog, halt, Reason, broken_queue, no_fuel, bad_word, not_queued, not_completed, poisoned, unwound,
  solo,
}
use usync.Prog.Safe.{Safe}
use usync.Prog.Lasts.{Lasts}
use usync.Shared.{Memory}
use usync.Shared.Parker.Roles.{
  Owner, Waker, Role, owner, waker, bystander, Good, Sees, Moves, Allowed, Ok,
}

-- A step of the owner once the unparking is over brings it nearer to its end.
owner_nearer :
    {S : Type 0} (me : ℕ) (o : Owner) (w : Waker) (m m' : Memory S) (r' : Role)
    → Good o w (m.heap me) m.counts
    → w.over ≡ 1
    → Moves me (owner o) m r' m'
    → (o' : Owner) × (r' ≡ owner o') × Good o' w (m'.heap me) m'.counts × (o'.left < o.left)
owner_nearer me o w m m' (owner o') good done mv =
    let (good', nearer) = mv w good in (o', refl, good', nearer done)
owner_nearer me o w m m' (waker w') good done mv = absurd mv
owner_nearer me o w m m' bystander good done mv = absurd mv

-- On fuel the owner is not stopped.
no_stop :
    (M A : Type 0) (k : ℕ) (stopped : Reason)
    → Allowed stopped
    → Lasts {M = M} {A = A} (suc k) (halt stopped)
    → ⊥
no_stop M A k no_fuel h lasts = lasts
no_stop M A k bad_word h lasts = h
no_stop M A k not_queued h lasts = h
no_stop M A k not_completed h lasts = h
no_stop M A k broken_queue h lasts = h
no_stop M A k poisoned h lasts = h
no_stop M A k unwound h lasts = h

-- Once the unparking is over, and on fuel for its last accesses, the owner returns.
pub solo-returns :
    {S A : Type 0} {Q : A → Role → Type 0} (me k : ℕ) (m : Memory S) (o : Owner) (w : Waker)
    {p : Prog (Memory S) A} {r : Role}
    → r ≡ owner o
    → Good o w (m.heap me) m.counts
    → w.over ≡ 1
    → o.left ≤ k
    → Ok me Q p r
    → Lasts (suc k) p
    → (b : A) × ((solo p m).1 ≡ inl b) × (o' : Owner) × Q b (owner o')
unfolding solo
solo-returns me k m o w {r} e good done le (Safe.ret {a} h) lasts = (a, refl, o, rw e at h)
solo-returns me zero m o w {r} e good done le (Safe.act next moves safe) lasts =
    let sees : Sees me r m = rw e (w, good) in
    let (o', e', good', nearer) =
      owner_nearer me o w m _ _ good done (rw e at (moves false m sees)) in
    absurd (omega arith)
solo-returns me (suc k) m o w {r} e good done le (Safe.act next moves safe) lasts =
    let sees : Sees me r m = rw e (w, good) in
    let (o', e', good', nearer) =
      owner_nearer me o w m _ _ good done (rw e at (moves false m sees)) in
    solo-returns me k _ o' w e' good' done (omega arith) (safe false m sees) (lasts false m)
solo-returns {S} {A} me k m o w e good done le (Safe.halt {w = stopped} h) lasts =
    absurd (no_stop (Memory S) A k stopped h lasts)
