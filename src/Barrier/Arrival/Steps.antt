-- ===== src/Barrier/Arrival/Steps.antt =====
-- The moves of the threads at a barrier.
use usync.Prelude.{
  ℕ, zero, suc, ◌+◌, ◌≤◌, ◌<◌, true, false, [], ◌≡◌, ◌≢◌, refl, sym, ap, ◌∙◌, bit, update,
  update_each, le-total, arith,
}
use usync.Shared.Still.{Links, View}
use usync.Shared.Queue.Chain.{unique-Chain}
use usync.Barrier.{Word, counting, waiting, completed, is_completed, is_queue_locked}
use usync.Barrier.Arrival.Roles.{
  Phase, away, ready, queued, linking, done, Role, at, in_queue, holding, owing, queues, holds,
  Local, Snapshot, Member, Waits, Settled, Open, Inv, Goes,
}
use usync.Barrier.Arrival.Knowledge.{holds_queues, owes_none}
use usync.Barrier.Arrival.Waits.{apart, same-Waits, weigh}

-- What a thread knows by itself, after a move of another one.
same-Local :
    (v v' : View Word) (x : ℕ) (p : Phase)
    → (queues p ≡ 0 → v'.links x ≡ v.links x)
    → (is_completed v.word ≡ true → is_completed v'.word ≡ true)
    → Local v x p
    → Local v' x p
same-Local v v' x away same keeps l = tt
same-Local v v' x (ready k) same keeps l = same refl ∙ l
same-Local v v' x queued same keeps l = tt
same-Local v v' x (linking s) same keeps l = tt
same-Local v v' x done same keeps l = keeps l

module _ (size n : ℕ) where
  -- The invariant after a move, from what the move changes.
  pub moved :
      (v v' : View Word) (rs : ℕ → Role) (i : ℕ) (r r' : Role)
      → i < n
      → rs i ≡ r
      → Inv size n v rs
      → r'.me ≡ r.me
      → in_queue r' ≤ r'.arrived
      → v'.counts.inside + r.arrived ≡ v.counts.inside + r'.arrived
      → bit (is_queue_locked v'.word) + holding r ≡ bit (is_queue_locked v.word) + holding r'
      → (is_completed v.word ≡ true → is_completed v'.word ≡ true)
      → (is_completed v'.word ≡ true → size ≤ v'.counts.inside)
      → (v'.counts.finished ≢ 0 → is_completed v.word ≡ true)
      → ((j : ℕ) → i ≢ j → j < n → in_queue (rs j) ≡ 0 → v'.links (rs j).me ≡ v.links (rs j).me)
      → Local v' r'.me r'.phase
      → Open size n v' (update rs i r') v'.word
      → ((h : ℕ) → v'.word ≡ waiting h false → Settled v'.links h)
      → Inv size n v' (update rs i r')
  moved v v' rs i r r' lt e inv me began arrivals locks keeps complete returned links here queue
        settled =
      let weighed = weigh size n rs i r r' lt e in
      record {
        me =
            update_each (λ j p. p.me ≡ j + 1) rs i r' (λ j _. inv.me j)
              (me ∙ sym (ap (λ (p : Role). p.me) e) ∙ inv.me i);
        began = update_each (λ j p. in_queue p ≤ p.arrived) rs i r' (λ j _. inv.began j) began;
        arrivals = omega (arith, weighed (λ (p : Role). p.arrived), inv.arrivals, arrivals);
        locks = omega (arith, weighed holding, inv.locks, locks);
        complete = complete;
        returned = λ f. keeps (returned f);
        local =
            update_each (λ j p. j < n → Local v' p.me p.phase) rs i r'
              (λ j ne below.
                same-Local v v' (rs j).me (rs j).phase (links j ne below) keeps (inv.local j below))
              (λ below. here);
        queue = queue;
        settled = settled;
      }

  -- The queue survives a move that leaves its waiters alone.
  pub same-Open :
      (v v' : View Word) (rs : ℕ → Role) (i : ℕ) (r r' : Role) (w : Word)
      → i < n
      → rs i ≡ r
      → Open size n v rs w
      → ((x : ℕ) → Member size n rs x → v'.links x ≡ v.links x)
      → in_queue r' ≡ in_queue r
      → in_queue r' ≤ 1
      → owing r' ≡ owing r
      → ((h : ℕ) (q : Waits size n v.links h rs) → Snapshot v'.links q.fresh q.base q.tail r'.phase)
      → Open size n v' (update rs i r') w
  same-Open v v' rs i r r' (counting zero) lt e q same weight one owed snap = tt
  same-Open v v' rs i r r' (counting (suc c)) lt e (all, none_in) same weight one owed snap =
      (all, omega (arith, weigh size n rs i r r' lt e in_queue, none_in, weight))
  same-Open v v' rs i r r' (waiting h k) lt e q same weight one owed snap =
      same-Waits size n rs i r r' lt e v.links v'.links h q same weight one owed (snap h q)

  -- A thread calls `wait`.
  pub arrive :
      (v : View Word) (me a : ℕ)
      → Goes size n
          (at me a away)
          v
          (at me (suc a) away)
          (record v { counts = record v.counts { inside = v.counts.inside + 1 } })
  arrive v me a rs i lt e inv =
      let v' = record v { counts = record v.counts { inside = v.counts.inside + 1 } } in
      moved v v' rs i (at me a away) (at me (suc a) away) lt e inv refl (omega arith) (omega arith)
        refl (λ c. c) (λ c. omega (arith, inv.complete c)) inv.returned (λ j ne below out. refl) tt
        (same-Open v v' rs i (at me a away) (at me (suc a) away) v.word lt e inv.queue (λ x q. refl)
          refl (omega arith) refl (λ h q. tt))
        inv.settled

  -- The call returns.
  pub leave :
      (v : View Word) (me a : ℕ)
      → Goes size n
          (at me a done)
          v
          (at me a away)
          (record v { counts = record v.counts { finished = v.counts.finished + 1 } })
  leave v me a rs i lt e inv =
      let v' = record v { counts = record v.counts { finished = v.counts.finished + 1 } } in
      let over : is_completed v.word ≡ true = rw e at (inv.local i lt) in
      moved v v' rs i (at me a done) (at me a away) lt e inv refl (omega arith) (omega arith) refl
        (λ c. c) inv.complete (λ _. over) (λ j ne below out. refl) tt
        (same-Open v v' rs i (at me a done) (at me a away) v.word lt e inv.queue (λ x q. refl) refl
          (omega arith) refl (λ h q. tt))
        inv.settled

  completed-Open :
      (v : View Word) (rs : ℕ → Role) (w : Word) → is_completed w ≡ true → Open size n v rs w
  completed-Open v rs (counting zero) c = tt
  completed-Open v rs (counting (suc m)) c = absurd (ground (arith, c))
  completed-Open v rs (waiting h k) c = absurd (ground (arith, c))

  -- A thread that does not hold QUEUE_LOCKED sees that the barrier is completed.
  pub finish :
      (v : View Word) (me a : ℕ) (p : Phase)
      → holds p ≡ 0
      → is_completed v.word ≡ true
      → Goes size n (at me a p) v (at me a done) v
  finish v me a p free over rs i lt e inv =
      moved v v rs i (at me a p) (at me a done) lt e inv refl (omega arith) (omega arith)
        (omega (arith, free)) (λ c. c) inv.complete inv.returned (λ j ne below out. refl) over
        (completed-Open v (update rs i (at me a done)) v.word over) inv.settled

  -- The head of a queue without a holder is still settled when other cells are written.
  still-Settled :
      (heap heap' : ℕ → Links) (h : ℕ) (rs : ℕ → Role) (q : Waits size n heap h rs)
      → ((x : ℕ) → Member size n rs x → heap' x ≡ heap x)
      → Settled heap h
      → Settled heap' h
  still-Settled heap heap' h rs q same (t, tail, more) =
      let (_, eb, et) =
        unique-Chain heap [] q.fresh h q.base t q.tail q.head tt q.path tail q.cached in
      let head : heap' h ≡ heap h = rw eb (same q.base q.base_member) in
      let last : heap' t ≡ heap t = rw et (same q.tail q.tail_member) in
      (
        t,
        ap (λ (l : Links). l.tail) head ∙ tail,
        λ z. more (sym (ap (λ (l : Links). l.counter) last) ∙ z),
      )

  -- A thread writes its own waiter before it is in the queue.
  pub own_cells :
      (v : View Word) (me a : ℕ) (p : Phase) (k : Links)
      → queues p ≡ 0
      → Goes size n (at me a p) v (at me a (ready k)) (record v { links = update v.links me k })
  own_cells v me a p k out rs i lt e inv =
      let v' = record v { links = update v.links me k } in
      let mine : me ≡ i + 1 = sym (ap (λ (r : Role). r.me) e) ∙ inv.me i in
      moved v v' rs i (at me a p) (at me a (ready k)) lt e inv refl (omega arith) (omega arith)
        (omega (arith, holds_queues p, out)) (λ c. c) inv.complete inv.returned
        (λ j ne below free.
          let differ : me ≢ (rs j).me = λ s. ne (omega (arith, s, mine, inv.me j)) in
          ground (arith, differ))
        (ground arith)
        (same-Open v v' rs i (at me a p) (at me a (ready k)) v.word lt e inv.queue
          (λ x q.
            let differ : me ≢ x = apart size n rs i (at me a p) (at me a p) lt e me mine out x q in
            ground (arith, differ))
          (sym out) (omega arith) (sym (owes_none p out)) (λ h q. tt))
        λ h w.
          let q : Open size n v rs (waiting h false) = rw w at inv.queue in
          still-Settled v.links v'.links h rs q
            (λ x m.
              let differ : me ≢ x =
                apart size n rs i (at me a p) (at me a p) lt e me mine out x m in
              ground (arith, differ))
            (inv.settled h w)

  -- The last thread completes a barrier at which nobody waits.
  pub last :
      (v : View Word) (me a : ℕ) (p : Phase)
      → v.word ≡ counting 1
      → queues p ≡ 0
      → Goes size n (at me (suc a) p) v (at me (suc a) done) (record v { word = completed })
  last v me a p one out rs i lt e inv =
      let v' = record v { word = completed } in
      let (all, _) : Open size n v rs (counting 1) = rw one at inv.queue in
      let mine : suc a ≡ (rs i).arrived = sym (ap (λ (r : Role). r.arrived) e) in
      let some_in = le-total (λ (r : Role). r.arrived) n rs i lt in
      moved v v' rs i (at me (suc a) p) (at me (suc a) done) lt e inv refl (omega arith)
        (omega arith) (rw one (omega (arith, holds_queues p, out))) (λ c. refl)
        (λ c. omega (arith, all, mine, some_in, inv.arrivals)) inv.returned
        (λ j ne below free. refl) refl tt (λ h w. absurd cc)
