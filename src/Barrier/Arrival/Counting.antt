-- ===== src/Barrier/Arrival/Counting.antt =====
-- How the queue of a barrier moves when the holder of QUEUE_LOCKED links and counts it.
use usync.Prelude.{
  ℕ, suc, ◌+◌, ◌-◌, ◌≤◌, ◌<◌, some, List, ◌∷◌, ◌++◌, ◌≡◌, ◌≢◌, refl, ap, ◌∙◌, update, update_each,
  total, length, arith,
}
use usync.Shared.Still.{Links}
use usync.Shared.Queue.Chain.{
  same-Line, Alike, map-All, append-All, first, same-Chain, append-Chain, append-Distinct,
  length-append, first-append,
}
use usync.Barrier.Arrival.Roles.{
  away, ready, queued, linking, done, Role, in_queue, holding, owing, holds, queues, Snapshot,
  Member, Waits,
}
use usync.Barrier.Arrival.Knowledge.{alike, free-Snapshot}
use usync.Barrier.Arrival.Waits.{weigh, still-Member, lone}

module _ (size n : ℕ) (rs : ℕ → Role) (i : ℕ) (r r' : Role) (lt : i < n) (e : rs i ≡ r) where
  module _ (one : holding r ≡ 1) (others : total holding n rs ≤ 1) (weight : in_queue r' ≡ 1) where
    queued_before : in_queue r ≡ 1
    queued_before =
        elim r.phase as (λ p. holds p ≡ 1 → queues p ≡ 1) [
          | away ↦ λ h. absurd (omega (arith, h))
          | ready k ↦ λ h. absurd (omega (arith, h))
          | queued ↦ λ h. refl
          | linking s ↦ λ h. refl
          | done ↦ λ h. absurd (omega (arith, h))
        ]
          one

    -- The head of the path that the holder has linked caches the tail.
    pub cache_Waits :
        (heap : ℕ → Links) (h p : ℕ) (pushed ps : List ℕ) (q : Waits size n heap h rs)
        → q.fresh ≡ pushed ++ (p ∷ ps)
        → owing r' ≡ owing r + suc (length ps)
        → Snapshot (update heap p (record (heap p) { tail = some q.tail })) pushed p q.tail r'.phase
        → Waits size n (update heap p (record (heap p) { tail = some q.tail })) h (update rs i r')
    cache_Waits heap h p pushed ps q split owed snap =
        let heap' = update heap p (record (heap p) { tail = some q.tail }) in
        let member =
          still-Member size n rs i r r' lt e (omega (arith, weight, queued_before))
            (omega (arith, weight)) in
        let (path, _) = append-Chain heap pushed (p ∷ ps) q.base (rw split at q.path) in
        let (front, (here, _)) =
          append-All (Member size n rs) pushed (p ∷ ps) (rw split at q.members) in
        let (distinct, ne) = append-Distinct pushed ps p (rw split at q.distinct) in
        let same : (heap' q.tail).counter ≡ (heap q.tail).counter = ground arith in
        let follows : (x : ℕ) → (heap' x).next ≡ (heap x).next = λ x. ground arith in
        record {
          fresh = pushed;
          base = p;
          tail = q.tail;
          counted = q.counted + suc (length ps);
          head = q.head ∙ ap (λ l. first l q.base) split ∙ first-append pushed (p ∷ ps) q.base;
          path =
              same-Chain heap heap' pushed p
                (map-All pushed
                  (λ x n'. let out : heap' x ≡ heap x = ground (arith, n') in alike out) ne)
                path;
          cached = ground arith;
          enough = omega (arith, q.enough, weigh size n rs i r r' lt e owing, owed, same);
          many = omega (
            arith,
            q.many,
            weigh size n rs i r r' lt e in_queue,
            weight,
            queued_before,
            ap length split,
            length-append pushed (p ∷ ps),
          );
          members = map-All pushed member front;
          base_member = member p here;
          tail_member = member q.tail q.tail_member;
          distinct = distinct;
          behind = q.behind;
          line =
              same-Line heap heap' h q.behind q.tail
                (map-All (h ∷ q.behind) (λ x m. follows x) q.all_members) q.line;
          all_members = map-All (h ∷ q.behind) member q.all_members;
          all_distinct = q.all_distinct;
          whole =
              omega (arith, q.whole, weigh size n rs i r r' lt e in_queue, weight, queued_before);
          exact = λ ne.
              omega (
                arith,
                q.exact (λ z. ne (same ∙ z)),
                weigh size n rs i r r' lt e owing,
                owed,
                same,
              );
          snapshot =
              update_each (λ j p'. j < n → Snapshot heap' pushed p q.tail p'.phase) rs i r'
                (λ j ne below.
                  free-Snapshot heap' pushed p q.tail (rs j).phase
                    (lone size n rs i r r' lt e one others j ne below))
                (λ below. snap);
        }

    -- The holder takes what it owes off the count.
    pub counter_Waits :
        (heap : ℕ → Links) (h c : ℕ) (q : Waits size n heap h rs)
        → (heap q.tail).counter ≡ c
        → owing r' ≡ 0
        → Snapshot
            (update heap q.tail (record (heap q.tail) { counter = c - owing r }))
            q.fresh
            q.base
            q.tail
            r'.phase
        → Waits size n
            (update heap q.tail (record (heap q.tail) { counter = c - owing r }))
            h
            (update rs i r')
    counter_Waits heap h c q counter owed snap =
        let heap' = update heap q.tail (record (heap q.tail) { counter = c - owing r }) in
        let member =
          still-Member size n rs i r r' lt e (omega (arith, weight, queued_before))
            (omega (arith, weight)) in
        let now : (heap' q.tail).counter ≡ c - owing r = ground arith in
        let like : (x : ℕ) → Alike (heap x) (heap' x) = λ x. (ground arith, ground arith) in
        record {
          fresh = q.fresh;
          base = q.base;
          tail = q.tail;
          counted = q.counted;
          head = q.head;
          path =
              same-Chain heap heap' q.fresh q.base (map-All q.fresh (λ x _. like x) q.members)
                q.path;
          cached = (like q.base).1 ∙ q.cached;
          enough = omega (arith, q.enough, weigh size n rs i r r' lt e owing, owed, now, counter);
          many = omega (arith, q.many, weigh size n rs i r r' lt e in_queue, weight, queued_before);
          members = map-All q.fresh member q.members;
          base_member = member q.base q.base_member;
          tail_member = member q.tail q.tail_member;
          distinct = q.distinct;
          behind = q.behind;
          line =
              same-Line heap heap' h q.behind q.tail
                (map-All (h ∷ q.behind) (λ x _. (like x).0) q.all_members) q.line;
          all_members = map-All (h ∷ q.behind) member q.all_members;
          all_distinct = q.all_distinct;
          whole =
              omega (arith, q.whole, weigh size n rs i r r' lt e in_queue, weight, queued_before);
          exact = λ ne.
              let more : c - owing r ≢ 0 = λ z. ne (now ∙ z) in
              let before = q.exact (λ z. more (omega (arith, counter, z))) in
              omega (arith, before, weigh size n rs i r r' lt e owing, owed, now, counter, more);
          snapshot =
              update_each (λ j p'. j < n → Snapshot heap' q.fresh q.base q.tail p'.phase) rs i r'
                (λ j ne below.
                  free-Snapshot heap' q.fresh q.base q.tail (rs j).phase
                    (lone size n rs i r r' lt e one others j ne below))
                (λ below. snap);
        }
