-- ===== src/Barrier/Arrival/Locked.antt =====
-- What the holder of QUEUE_LOCKED at a barrier finds, and its moves within the queue.
use usync.Prelude.{
  ℕ, suc, ◌+◌, ◌≤◌, ◌<◌, true, false, none, [], List, ◌≡◌, ◌≢◌, refl, ap, bit, update, le-total,
  total, length, arith,
}
use usync.Shared.Still.{View}
use usync.Barrier.{Word, counting, waiting, is_queue_locked}
use usync.Barrier.Arrival.Roles.{Hold, linking, Role, at, holding, Member, Waits, Inv}
use usync.Barrier.Arrival.Waits.{apart}
use usync.Barrier.Arrival.Steps.{moved}

-- What the holder has linked, it owes to the count.
abbrev pub linked_from : Hold → ℕ → List ℕ → Hold
linked_from s p ps = record {
  path = [];
  base = p;
  tail = s.tail;
  owed = s.owed + suc (length ps);
  counter = none;
}

locked_word : (w : Word) → 1 ≤ bit (is_queue_locked w) → (h : ℕ) × (w ≡ waiting h true)
locked_word (counting c) h = absurd (omega (arith, h))
locked_word (waiting p true) h = (p, refl)
locked_word (waiting p false) h = absurd (omega (arith, h))

module _ (size n : ℕ) (v : View Word) (me a : ℕ) where
  -- The holder of QUEUE_LOCKED finds it set.
  pub locked :
      (s : Hold) (rs : ℕ → Role) (i : ℕ)
      → i < n
      → rs i ≡ at me a (linking s)
      → Inv size n v rs
      → (h : ℕ) × (v.word ≡ waiting h true)
  locked s rs i lt e inv =
      let one : holding (rs i) ≡ 1 = ap holding e in
      locked_word v.word (omega (arith, one, le-total holding n rs i lt, inv.locks))

  module _ (s s' : Hold) (v' : View Word) (same_word : v'.word ≡ v.word)
      (same_counts : v'.counts ≡ v.counts) where
    -- A move within the queue.
    pub linked :
        (rs : ℕ → Role) (i h : ℕ)
        → i < n
        → rs i ≡ at me a (linking s)
        → (inv : Inv size n v rs) → v.word ≡ waiting h true
        → ((x : ℕ) → ((y : ℕ) → Member size n rs y → x ≢ y) → v'.links x ≡ v.links x)
        → Waits size n v'.links h (update rs i (at me a (linking s')))
        → Inv size n v' (update rs i (at me a (linking s')))
    linked rs i h lt e inv w outside q =
        let r = at me a (linking s) in
        let r' = at me a (linking s') in
        let began = inv.began i in
        moved size n v v' rs i r r' lt e inv refl (rw e at began) (rw same_counts (omega arith))
          (rw same_word (omega arith)) (rw same_word (λ c. c))
          (rw (same_word, same_counts) inv.complete) (rw same_counts inv.returned)
          (λ j ne below free.
            outside _ (apart size n rs j (rs j) (rs j) below refl _ (inv.me j) free))
          tt (rw (same_word, w) q) (λ h' w'. absurd cc)

  pub only :
      (rs : ℕ → Role) (h : ℕ) → Inv size n v rs → v.word ≡ waiting h true → total holding n rs ≤ 1
  only rs h inv w = let locks = rw w at inv.locks in omega (arith, locks)
