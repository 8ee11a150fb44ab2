-- ===== src/Barrier/Arrival/Waits.antt =====
-- How the queue of a barrier moves.
use usync.Prelude.{
  ℕ, suc, ◌+◌, ◌≤◌, ◌<◌, none, some, [], ◌∷◌, ◌≡◌, ◌≢◌, refl, ap, ◌∙◌, update, update_self,
  update_each, total, total-update, two_le_total, le-total, total-eq-zero, ◌==◌, Bool-cases, inl,
  inr, arith,
}
use usync.Shared.Still.{Links}
use usync.Shared.Queue.Chain.{same-Line, map-All, same-Chain, All-Apart}
use usync.Barrier.Arrival.Roles.{
  queued, Role, in_queue, holding, owing, queues, owes, Snapshot, Member, Waits,
}
use usync.Barrier.Arrival.Knowledge.{
  alike, free-Snapshot, same-Snapshot, push-Snapshot, holds_queues, owes_none,
}

module _ (size n : ℕ) (rs : ℕ → Role) (i : ℕ) (r r' : Role) (lt : i < n) (e : rs i ≡ r) where
  pub weigh : (w : Role → ℕ) → total w n (update rs i r') + w r ≡ total w n rs + w r'
  weigh w = rw e at (total-update w n rs i r' lt)

  -- The only holder.
  pub lone : holding r ≡ 1 → total holding n rs ≤ 1 → (j : ℕ) → i ≢ j → j < n → holding (rs j) ≡ 0
  lone h one j ne below =
      omega (arith, h, one, ap holding e, two_le_total holding n rs i j lt below ne)

  pub still-Member :
      in_queue r ≤ in_queue r'
      → in_queue r' ≤ 1
      → (x : ℕ) → Member size n rs x
      → Member size n (update rs i r') x
  still-Member le one x (j, below, ex, q) = (
    j,
    below,
    ex,
    elim (Bool-cases (i == j)) [
      | inl same ↦
          let here : i ≡ j = ground arith in
          let was : in_queue r ≡ 1 = rw (← here, e) at q in rw same (omega (arith, was, le, one))
      | inr other ↦ rw other q
    ],
  )

  -- The queue stays as it is.
  pub same-Waits :
      (heap heap' : ℕ → Links) (h : ℕ) (q : Waits size n heap h rs)
      → ((x : ℕ) → Member size n rs x → heap' x ≡ heap x)
      → in_queue r' ≡ in_queue r
      → in_queue r' ≤ 1
      → owing r' ≡ owing r
      → Snapshot heap' q.fresh q.base q.tail r'.phase
      → Waits size n heap' h (update rs i r')
  same-Waits heap heap' h q same weight one owed snap =
      let member = still-Member (omega (arith, weight)) one in
      let tail = same q.tail q.tail_member in
      record {
        fresh = q.fresh;
        base = q.base;
        tail = q.tail;
        counted = q.counted;
        head = q.head;
        path =
            same-Chain heap heap' q.fresh q.base
              (map-All q.fresh (λ x m. alike (same x m)) q.members) q.path;
        cached = ap (λ (l : Links). l.tail) (same q.base q.base_member) ∙ q.cached;
        enough = omega (arith, q.enough, weigh owing, owed, ap (λ (l : Links). l.counter) tail);
        many = omega (arith, q.many, weigh in_queue, weight);
        members = map-All q.fresh member q.members;
        base_member = member q.base q.base_member;
        tail_member = member q.tail q.tail_member;
        distinct = q.distinct;
        behind = q.behind;
        line =
            same-Line heap heap' h q.behind q.tail
              (map-All (h ∷ q.behind) (λ x m. ap (λ (l : Links). l.next) (same x m)) q.all_members)
              q.line;
        all_members = map-All (h ∷ q.behind) member q.all_members;
        all_distinct = q.all_distinct;
        whole = omega (arith, q.whole, weigh in_queue, weight);
        exact = λ ne.
            let counter = ap (λ (l : Links). l.counter) tail in
            omega (arith, q.exact (λ z. ne (counter ∙ z)), weigh owing, owed, counter);
        snapshot =
            update_each (λ j p. j < n → Snapshot heap' q.fresh q.base q.tail p.phase) rs i r'
              (λ j ne below.
                same-Snapshot heap heap' q.fresh q.base q.tail _ tail (q.snapshot j below))
              (λ below. snap);
      }

  -- The first waiter keeps the count.
  pub first_Waits :
      (heap : ℕ → Links) (x c : ℕ)
      → x ≡ i + 1
      → r'.phase ≡ queued
      → in_queue r ≡ 0
      → total in_queue n rs ≡ 0
      → suc c ≡ size
      → heap x ≡ record { next = none; tail = some x; counter = c }
      → Waits size n heap x (update rs i r')
  first_Waits heap x c ex phase none_now none_else all written =
      let here : in_queue (update rs i r' i) ≡ 1 = rw (update_self rs i r', phase) refl in
      let owed : total owing n (update rs i r') ≡ 0 = total-eq-zero owing n (update rs i r') (
        update_each (λ j p. j < n → owing p ≡ 0) rs i r'
          (λ j ne below.
            owes_none (rs j).phase (omega (arith, le-total in_queue n rs j below, none_else)))
          (λ below. ap owes phase)) in
      let self : Member size n (update rs i r') x = (i, lt, ex, here) in
      record {
        fresh = [];
        base = x;
        tail = x;
        counted = 1;
        head = refl;
        path = tt;
        cached = ap (λ (l : Links). l.tail) written;
        enough = omega (arith, owed, all, ap (λ (l : Links). l.counter) written);
        many = omega (arith, weigh in_queue, none_now, none_else, ap queues phase);
        members = tt;
        base_member = self;
        tail_member = self;
        distinct = tt;
        behind = [];
        line = (refl, ap (λ (l : Links). l.next) written);
        all_members = (self, tt);
        all_distinct = (tt, tt);
        whole = omega (arith, weigh in_queue, none_now, none_else, ap queues phase);
        exact = λ ne. omega (arith, owed, all, ap (λ (l : Links). l.counter) written);
        snapshot =
            update_each (λ j p. j < n → Snapshot heap [] x x p.phase) rs i r'
              (λ j ne below. free-Snapshot heap [] x x _ (
                omega
                  (arith, le-total in_queue n rs j below, none_else, holds_queues (rs j).phase)))
              (λ below. rw phase tt);
      }

  -- No waiter of the queue is that of a thread outside it.
  pub apart : (x : ℕ) → x ≡ i + 1 → in_queue r ≡ 0 → (y : ℕ) → Member size n rs y → x ≢ y
  apart x ex none_now y (j, below, ey, one) same =
      let here : j ≡ i = omega (arith, ex, ey, same) in
      let was : in_queue r ≡ 1 = rw (here, e) at one in omega (arith, was, none_now)

  -- A further waiter takes the place of the head.
  pub next_Waits :
      (heap : ℕ → Links) (h x : ℕ) (q : Waits size n heap h rs)
      → x ≡ i + 1
      → in_queue r ≡ 0
      → in_queue r' ≡ 1
      → owing r' ≡ 0
      → (heap x).next ≡ some h
      → (heap x).tail ≡ none
      → Snapshot heap (x ∷ q.fresh) q.base q.tail r'.phase
      → Waits size n heap x (update rs i r')
  next_Waits heap h x q ex none_now one owed next tail snap =
      let here : in_queue (update rs i r' i) ≡ 1 = rw (update_self rs i r') one in
      let member = still-Member (omega (arith, none_now)) (omega (arith, one)) in
      record {
        fresh = x ∷ q.fresh;
        base = q.base;
        tail = q.tail;
        counted = q.counted;
        head = refl;
        path = (tail, next ∙ ap some q.head, q.path);
        cached = q.cached;
        enough = omega (arith, q.enough, weigh owing, owed, owes_none r.phase none_now);
        many = omega (arith, q.many, weigh in_queue, none_now, one);
        members = ((i, lt, ex, here), map-All q.fresh member q.members);
        base_member = member q.base q.base_member;
        tail_member = member q.tail q.tail_member;
        distinct =
            (All-Apart x q.fresh (map-All q.fresh (apart x ex none_now) q.members), q.distinct);
        behind = h ∷ q.behind;
        line = (next, q.line);
        all_members = ((i, lt, ex, here), map-All (h ∷ q.behind) member q.all_members);
        all_distinct = (
          All-Apart x (h ∷ q.behind) (map-All (h ∷ q.behind) (apart x ex none_now) q.all_members),
          q.all_distinct,
        );
        whole = omega (arith, q.whole, weigh in_queue, none_now, one);
        exact = λ ne. omega (arith, q.exact ne, weigh owing, owed, owes_none r.phase none_now);
        snapshot =
            update_each (λ j p. j < n → Snapshot heap (x ∷ q.fresh) q.base q.tail p.phase) rs i r'
              (λ j ne below.
                push-Snapshot heap x q.fresh q.base q.tail (rs j).phase (q.snapshot j below))
              (λ below. snap);
      }
