-- ===== src/Barrier/Arrival/Pushing.antt =====
-- A thread puts its waiter into the queue of a barrier.
use usync.Prelude.{
  ℕ, suc, ◌+◌, ◌<◌, true, false, none, some, ◌∷◌, [], ◌≡◌, ◌≢◌, refl, sym, ap, ◌∙◌, arith,
}
use usync.Shared.Still.{Links, View}
use usync.Shared.Queue.Chain.{unique-Chain}
use usync.Barrier.{Word, counting, waiting}
use usync.Barrier.Arrival.Roles.{
  Hold, Phase, ready, queued, linking, Role, at, Waits, Open, Inv, Goes,
}
use usync.Barrier.Arrival.Waits.{first_Waits, next_Waits}
use usync.Barrier.Arrival.Steps.{moved}

module _ (size n : ℕ) where
  -- The heap determines the queue behind a head.
  pub unique-Waits :
      (heap : ℕ → Links) (h : ℕ) (rs rs' : ℕ → Role) (q : Waits size n heap h rs)
      (q' : Waits size n heap h rs')
      → (q.fresh ≡ q'.fresh) × (q.base ≡ q'.base) × (q.tail ≡ q'.tail)
  unique-Waits heap h rs rs' q q' =
      unique-Chain heap q.fresh q'.fresh q.base q'.base q.tail q'.tail (sym q.head ∙ q'.head) q.path
        q'.path q.cached q'.cached

  module _ (v : View Word) (me a : ℕ) where
    mine : (rs : ℕ → Role) (i : ℕ) (p : Phase) → rs i ≡ at me a p → Inv size n v rs → me ≡ i + 1
    mine rs i p e inv = sym (ap (λ (r : Role). r.me) e) ∙ inv.me i

    written :
        (rs : ℕ → Role) (i : ℕ) (k : Links)
        → i < n
        → rs i ≡ at me a (ready k)
        → Inv size n v rs
        → v.links me ≡ k
    written rs i k lt e inv = rw e at (inv.local i lt)

  -- The first waiter.
  pub push_first :
      (v : View Word) (me a c : ℕ)
      → v.word ≡ counting (suc c)
      → c ≢ 0
      → Goes size n
          (at me (suc a) (ready (record { next = none; tail = some me; counter = c })))
          v
          (at me (suc a) queued)
          (record v { word = waiting me false })
  push_first v me a c w more rs i lt e inv =
      let k : Links = record { next = none; tail = some me; counter = c } in
      let r = at me (suc a) (ready k) in
      let r' = at me (suc a) queued in
      let (all, none_in) : Open size n v rs (counting (suc c)) = rw w at inv.queue in
      moved size n v (record v { word = waiting me false }) rs i r r' lt e inv refl (omega arith)
        (omega arith) (rw w (omega arith)) (rw w (λ c. absurd (ground (arith, c))))
        (λ c. absurd (ground (arith, c))) inv.returned (λ j ne below free. refl) tt
        (first_Waits size n rs i r r' lt e v.links me c (mine v me (suc a) rs i (ready k) e inv)
          refl refl none_in all (written v me (suc a) rs i k lt e inv))
        λ h w'.
          let here = written v me (suc a) rs i k lt e inv in
          let same : me ≡ h = cc in
          rw (← same) (
            me,
            ap (λ (l : Links). l.tail) here,
            λ z. more (sym (ap (λ (l : Links). l.counter) here) ∙ z),
          )

  -- A further waiter, while another thread holds QUEUE_LOCKED.
  pub push_next :
      (v : View Word) (me a h : ℕ) (k : Links)
      → v.word ≡ waiting h true
      → k.next ≡ some h
      → k.tail ≡ none
      → Goes size n
          (at me (suc a) (ready k))
          v
          (at me (suc a) queued)
          (record v { word = waiting me true })
  push_next v me a h k w next tail rs i lt e inv =
      let r = at me (suc a) (ready k) in
      let r' = at me (suc a) queued in
      let q : Open size n v rs (waiting h true) = rw w at inv.queue in
      let here = written v me (suc a) rs i k lt e inv in
      moved size n v (record v { word = waiting me true }) rs i r r' lt e inv refl (omega arith)
        (omega arith) (rw w (omega arith)) (rw w (λ c. absurd (ground (arith, c))))
        (λ c. absurd (ground (arith, c))) inv.returned (λ j ne below free. refl) tt
        (next_Waits size n rs i r r' lt e v.links h me q (mine v me (suc a) rs i (ready k) e inv)
          refl refl refl (rw here next) (rw here tail) tt)
        (λ h' w'. absurd cc)

  -- What a thread knows that takes QUEUE_LOCKED with a queue behind its own waiter.
  abbrev pub taken :
      (me : ℕ) {heap : ℕ → Links} {h : ℕ} {rs : ℕ → Role} → Waits size n heap h rs → Hold
  taken me q = record {
    path = me ∷ q.fresh;
    base = q.base;
    tail = q.tail;
    owed = 0;
    counter = none;
  }

  -- A further waiter, with QUEUE_LOCKED.
  pub push_locked :
      (v : View Word) (me a h : ℕ) (k : Links) (rs' : ℕ → Role) (q' : Waits size n v.links h rs')
      → v.word ≡ waiting h false
      → k.next ≡ some h
      → k.tail ≡ none
      → Goes size n
          (at me (suc a) (ready k))
          v
          (at me (suc a) (linking (taken me q')))
          (record v { word = waiting me true })
  push_locked v me a h k rs' q' w next tail rs i lt e inv =
      let r = at me (suc a) (ready k) in
      let r' = at me (suc a) (linking (taken me q')) in
      let q : Open size n v rs (waiting h false) = rw w at inv.queue in
      let here = written v me (suc a) rs i k lt e inv in
      let (ef, eb, et) = unique-Waits v.links h rs' rs q' q in
      moved size n v (record v { word = waiting me true }) rs i r r' lt e inv refl (omega arith)
        (omega arith) (rw w (omega arith)) (rw w (λ c. absurd (ground (arith, c))))
        (λ c. absurd (ground (arith, c))) inv.returned (λ j ne below free. refl) tt
        (next_Waits size n rs i r r' lt e v.links h me q (mine v me (suc a) rs i (ready k) e inv)
          refl refl refl (rw here next) (rw here tail)
          (eb, et, ([], ap (λ l. me ∷ l) (sym ef)), λ c none_yet. absurd cc))
        (λ h' w'. absurd cc)
