-- ===== src/Barrier/Arrival/Holding.antt =====
-- What the thread does that holds QUEUE_LOCKED at a barrier.
use usync.Prelude.{
  ℕ, ◌-◌, true, false, none, some, ◌∷◌, ◌++◌, [], List, ◌≡◌, ◌≢◌, refl, sym, ap, ◌∙◌, update,
  total_mono, arith,
}
use mathlib.Core.List.{append-nil}
use usync.Shared.Still.{View}
use usync.Shared.Queue.Chain.{append-All}
use usync.Barrier.{Word, waiting, completed}
use usync.Barrier.Arrival.Roles.{
  Hold, queued, linking, done, Role, at, in_queue, Member, Snapshot, Waits, Open, Goes,
}
use usync.Barrier.Arrival.Waits.{same-Waits}
use usync.Barrier.Arrival.Counting.{cache_Waits, counter_Waits}
use usync.Barrier.Arrival.Steps.{moved}
use usync.Barrier.Arrival.Pushing.{unique-Waits}
use usync.Barrier.Arrival.Locked.{linked_from, locked, linked, only}

module _ (size n : ℕ) (v : View Word) (me a : ℕ) where
  module _ (s : Hold) where
    -- The head that the holder has linked caches the tail.
    pub cache :
        (p : ℕ) (ps : List ℕ)
        → s.path ≡ p ∷ ps
        → Goes size n
            (at me a (linking s))
            v
            (at me a (linking (linked_from s p ps)))
            (record v { links = update v.links p (record (v.links p) { tail = some s.tail }) })
    cache p ps path rs i lt e inv =
        let (h, w) = locked size n v me a s rs i lt e inv in
        let q : Open size n v rs (waiting h true) = rw w at inv.queue in
        let (eb, et, (pushed, parts), _) : Snapshot v.links q.fresh q.base q.tail (linking s) =
          rw e at (q.snapshot i lt) in
        let split : q.fresh ≡ pushed ++ (p ∷ ps) = parts ∙ ap (λ l. pushed ++ l) path in
        let (_, (member, _)) =
          append-All (Member size n rs) pushed (p ∷ ps) (rw split at q.members) in
        rw et (
          linked size n v me a s (record (linked_from s p ps) { tail = q.tail })
            (record v { links = update v.links p (record (v.links p) { tail = some q.tail }) }) refl
            refl rs i h lt e inv w (λ x out. let ne : x ≢ p = out p member in ground (arith, ne))
            (cache_Waits size n rs i (at me a (linking s))
              (at me a (linking (record (linked_from s p ps) { tail = q.tail }))) lt e refl
              (only size n v me a rs h inv w) refl v.links h p pushed ps q split refl
              (refl, refl, (pushed, sym (append-nil pushed)), λ c none_yet. absurd cc)))

    -- The holder reads the count.
    pub note_counter :
        (c : ℕ)
        → (v.links s.tail).counter ≡ c
        → Goes size n (at me a (linking s)) v (at me a (linking (record s { counter = some c }))) v
    note_counter c read rs i lt e inv =
        let (h, w) = locked size n v me a s rs i lt e inv in
        let q : Open size n v rs (waiting h true) = rw w at inv.queue in
        let (eb, et, split, _) : Snapshot v.links q.fresh q.base q.tail (linking s) =
          rw e at (q.snapshot i lt) in
        let here : (v.links q.tail).counter ≡ c = rw et at read in
        let r' = at me a (linking (record s { counter = some c })) in
        linked size n v me a s (record s { counter = some c }) v refl refl rs i h lt e inv w
          (λ x out. refl)
          (same-Waits size n rs i (at me a (linking s)) r' lt e v.links v.links h q (λ x m. refl)
            refl (omega arith) refl (eb, et, split, λ d found. here ∙ cc))

    -- The holder writes it back, less what it owes.
    pub write_counter :
        (c : ℕ)
        → s.counter ≡ some c
        → Goes size n
            (at me a (linking s))
            v
            (at me a (linking (record s { owed = 0; counter = some (c - s.owed) })))
            (record v {
              links = update v.links s.tail (record (v.links s.tail) { counter = c - s.owed });
            })
    write_counter c found rs i lt e inv =
        let (h, w) = locked size n v me a s rs i lt e inv in
        let q : Open size n v rs (waiting h true) = rw w at inv.queue in
        let (eb, et, split, counter) : Snapshot v.links q.fresh q.base q.tail (linking s) =
          rw e at (q.snapshot i lt) in
        let s' : Hold = record s { tail = q.tail; owed = 0; counter = some (c - s.owed) } in
        let heap = update v.links q.tail (record (v.links q.tail) { counter = c - s.owed }) in
        let now : (heap q.tail).counter ≡ c - s.owed = ground arith in
        rw et (
          linked size n v me a s s' (record v { links = heap }) refl refl rs i h lt e inv w
            (λ x out. let ne : x ≢ q.tail = out q.tail q.tail_member in ground (arith, ne))
            (counter_Waits size n rs i (at me a (linking s)) (at me a (linking s')) lt e refl
              (only size n v me a rs h inv w) refl v.links h c q (counter c found) refl
              (eb, refl, split, λ d found'. now ∙ cc)))

    -- The holder finds that more waiters have been pushed.
    pub resnap :
        (h : ℕ) (rs' : ℕ → Role) (q' : Waits size n v.links h rs')
        → v.word ≡ waiting h true
        → Goes size n
            (at me a (linking s))
            v
            (at me a (
              linking (record {
                path = q'.fresh;
                base = q'.base;
                tail = q'.tail;
                owed = s.owed;
                counter = none;
              })))
            v
    resnap h rs' q' w rs i lt e inv =
        let q : Open size n v rs (waiting h true) = rw w at inv.queue in
        let (ef, eb, et) = unique-Waits size n v.links h rs' rs q' q in
        let s' : Hold = record {
          path = q'.fresh;
          base = q'.base;
          tail = q'.tail;
          owed = s.owed;
          counter = none;
        } in
        linked size n v me a s s' v refl refl rs i h lt e inv w (λ x out. refl)
          (same-Waits size n rs i (at me a (linking s)) (at me a (linking s')) lt e v.links v.links
            h q (λ x m. refl) refl (omega arith) refl
            (eb, et, ([], sym ef), λ c none_yet. absurd cc))

    -- The holder gives QUEUE_LOCKED back.
    pub release :
        (h : ℕ)
        → v.word ≡ waiting h true
        → s.owed ≡ 0
        → s.base ≡ h
        → (c : ℕ) → s.counter ≡ some c
        → c ≢ 0
        → Goes size n (at me a (linking s)) v (at me a queued) (record v { word = waiting h false })
    release h w paid at_head c found more rs i lt e inv =
        let q : Open size n v rs (waiting h true) = rw w at inv.queue in
        let began = inv.began i in
        let (eb, et, _, counter) : Snapshot v.links q.fresh q.base q.tail (linking s) =
          rw e at (q.snapshot i lt) in
        let tail : (v.links h).tail ≡ some q.tail =
          ap (λ x. (v.links x).tail) (sym at_head ∙ eb) ∙ q.cached in
        moved size n v (record v { word = waiting h false }) rs i (at me a (linking s))
          (at me a queued) lt e inv refl (rw e at began) (omega arith) (rw w (omega arith))
          (rw w (λ c. absurd (ground (arith, c)))) (λ c. absurd (ground (arith, c))) inv.returned
          (λ j ne below free. refl) tt
          (same-Waits size n rs i (at me a (linking s)) (at me a queued) lt e v.links v.links h q
            (λ x m. refl) refl (omega arith) (sym paid) tt)
          λ h' w'.
            let same : h ≡ h' = cc in
            rw (← same) (q.tail, tail, λ z. more (sym (counter c found) ∙ z))

    -- The holder has used the count up, and completes the barrier.
    pub complete_all :
        s.owed ≡ 0
        → s.counter ≡ some 0
        → Goes size n (at me a (linking s)) v (at me a done) (record v { word = completed })
    complete_all paid used rs i lt e inv =
        let (h, w) = locked size n v me a s rs i lt e inv in
        let q : Open size n v rs (waiting h true) = rw w at inv.queue in
        let (_, _, _, counter) : Snapshot v.links q.fresh q.base q.tail (linking s) =
          rw e at (q.snapshot i lt) in
        let all = total_mono in_queue (λ (r : Role). r.arrived) n rs inv.began in
        moved size n v (record v { word = completed }) rs i (at me a (linking s)) (at me a done) lt
          e inv refl (omega arith) (omega arith) (rw w (omega arith)) (λ c. refl)
          (λ c. omega (arith, q.enough, q.many, counter 0 used, all, inv.arrivals)) inv.returned
          (λ j ne below free. refl) refl tt (λ h' w'. absurd cc)
