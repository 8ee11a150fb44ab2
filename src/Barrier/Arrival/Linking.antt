-- ===== src/Barrier/Arrival/Linking.antt =====
-- The thread that holds QUEUE_LOCKED at a barrier links the queue and counts it.
use usync.Prelude.{
  ℕ, zero, suc, ◌+◌, true, Option, none, some, List, [], ◌∷◌, ◌++◌, ◌≡◌, refl, sym, ap, subst, ◌∙◌,
  length, arith,
}
use mathlib.Core.List.{append_assoc}
use usync.Prog.{Prog, ret, ◌>>=◌, expect}
use usync.Prog.Safe.{Safe}
use usync.Shared.{Memory, non_null, modify, with_waiter}
use usync.Shared.Still.{view}
use usync.Shared.Queue.{link_loop, get_and_link_queue}
use usync.Shared.Queue.Chain.{first, Chain, append-Chain}
use usync.Barrier.{Word, waiting}
use usync.Barrier.Arrival.Roles.{Hold, linking, Role, at, Snapshot, Open, Sees, Ok}
use usync.Barrier.Arrival.Locked.{locked, linked_from}
use usync.Barrier.Arrival.Holding.{cache}
use usync.Barrier.Arrival.Rules.{unmoved, waiter_moved, after, read-Ok, modify-Ok, expect-Ok}

module _ (size n me a : ℕ) where
  -- What the holder sees.
  pub record Queue (s : Hold) (m : Memory Word) : Type 0 where
    pub path : Chain (view m).links s.path s.base
    pub cached : (m.heap s.base).tail ≡ some s.tail
    pub counter : (c : ℕ) → s.counter ≡ some c → (m.heap s.tail).counter ≡ c

  pub see : (s : Hold) (m : Memory Word) → Sees size n (at me a (linking s)) m → Queue s m
  see s m (rs, i, lt, e, inv) =
      let (h, w) = locked size n (view m) me a s rs i lt e inv in
      let q : Open size n (view m) rs (waiting h true) = rw w at inv.queue in
      let (eb, et, (pushed, split), counter) : Snapshot (view m).links q.fresh q.base q.tail
          (linking s) =
        rw e at (q.snapshot i lt) in
      let (_, path) = append-Chain (view m).links pushed s.path q.base (rw split at q.path) in
      record {
        path = subst (λ b. Chain (view m).links s.path b) (sym eb) path;
        cached = ap (λ b. (m.heap b).tail) eb ∙ q.cached ∙ ap some (sym et);
        counter = rw et counter;
      }

  -- One waiter of the path.
  see_waiter :
      (s : Hold) (m : Memory Word) (pre ys : List ℕ) (x : ℕ)
      → s.path ≡ pre ++ (x ∷ ys)
      → Sees size n (at me a (linking s)) m
      → ((m.heap x).tail ≡ none) × ((m.heap x).next ≡ some (first ys s.base))
  see_waiter s m pre ys x split sees =
      let q = see s m sees in
      let (_, (tail, next, _)) =
        append-Chain (view m).links pre (x ∷ ys) s.base (rw split at q.path) in
      (tail, next)

  set_prev-Ok :
      {A : Type 0} {Q : A → Role → Type 0} (r : Role) (p : ℕ) (x : Option ℕ)
      (f : Unit {0} → Prog (Memory Word) A)
      → Ok size n Q (f tt) r
      → Ok size n Q (modify p (λ w. record w { prev = x }) >>= f) r
  set_prev-Ok r p x f =
      modify-Ok size n r p (λ w. record w { prev = x }) f
        λ m sees.
          unmoved size n r m (with_waiter p (λ w. record w { prev = x }) m)
            (refl, refl, λ y. ground arith)

  -- The holder has found the tail, and owes the waiters that it has found behind
  -- the head, which now caches the tail.
  abbrev pub Found : ℕ → ℕ → List ℕ → Role → Type 0
  Found h t found r =
      (s : Hold) × (r ≡ at me a (linking s)) × (t ≡ s.tail) × (s.owed ≡ length found) × (s.base ≡ h)

  module _ (s : Hold) (paid : s.owed ≡ 0) (head : ℕ) (ps : List ℕ) (path : s.path ≡ head ∷ ps) where
    link_loop-Ok :
        (f current : ℕ) (pre ys found : List ℕ)
        → s.path ≡ pre ++ (current ∷ ys)
        → length found + length ys ≡ length ps
        → Ok size n
            (λ (t, found'). Found head t found')
            (link_loop f head current found)
            (at me a (linking s))
    unfolding link_loop expect ◌>>=◌
    link_loop-Ok zero current pre ys found split sum = Safe.halt tt
    link_loop-Ok (suc f) current pre [] found split sum =
        let owed : s.owed + suc (length ps) ≡ length (s.base ∷ found) = omega (arith, sum, paid) in
        read-Ok size n current (λ w. w.next) (some s.base) _
          (λ m sees. (see_waiter s m pre [] current split sees).1)
          (set_prev-Ok (at me a (linking s)) s.base (some current) _ (
            read-Ok size n s.base (λ w. w.tail) (some s.tail) _ (λ m sees. (see s m sees).cached)
              (modify-Ok size n (at me a (linking (linked_from s head ps))) head
                (λ w. record w { tail = some s.tail }) (λ _. ret (s.tail, s.base ∷ found))
                (λ m sees.
                  waiter_moved size n _ _ head (λ w. record w { tail = some s.tail }) m
                    (cache size n (view m) me a s head ps path))
                (Safe.ret {a = (s.tail, s.base ∷ found)}
                  (linked_from s head ps, refl, refl, owed, refl)))))
    link_loop-Ok (suc f) current pre (y ∷ ys) found split sum =
        let rest : s.path ≡ (pre ++ (current ∷ [])) ++ (y ∷ ys) =
          split ∙ sym (append_assoc pre (current ∷ []) (y ∷ ys)) in
        read-Ok size n current (λ w. w.next) (some y) _
          (λ m sees. (see_waiter s m pre (y ∷ ys) current split sees).1)
          (set_prev-Ok (at me a (linking s)) y (some current) _ (
            read-Ok size n y (λ w. w.tail) none _
              (λ m sees. (see_waiter s m (pre ++ (current ∷ [])) ys y rest sees).0)
              (link_loop-Ok f y (pre ++ (current ∷ [])) ys (y ∷ found) rest (omega (arith, sum)))))

  found_head : (h b : ℕ) → non_null h ≡ some b → b ≡ h
  found_head zero b e = cc
  found_head (suc h) b e = cc

  pub get_and_link_queue-Ok :
      (s : Hold) (fuel h : ℕ) (path : List ℕ)
      → s.path ≡ path
      → s.owed ≡ 0
      → first path s.base ≡ h
      → Ok size n
          (λ (hd, t, found). Found h t found)
          (get_and_link_queue fuel h)
          (at me a (linking s))
  unfolding get_and_link_queue
  get_and_link_queue-Ok s fuel h [] e paid at_head = expect-Ok size n _ _ _ λ b found.
      let here : s.base ≡ b = at_head ∙ sym (found_head h b found) in
      read-Ok size n b (λ w. w.tail) (some s.tail) _
        (λ m sees. subst (λ x. (m.heap x).tail ≡ some s.tail) here (see s m sees).cached)
        (Safe.ret {a = (b, s.tail, [])} (s, refl, refl, paid, at_head))
  get_and_link_queue-Ok s fuel h (p ∷ ps) e paid at_head = expect-Ok size n _ _ _ λ b found.
      let here : p ≡ b = at_head ∙ sym (found_head h b found) in
      let path : s.path ≡ b ∷ ps = e ∙ ap (λ x. x ∷ ps) here in
      read-Ok size n b (λ w. w.tail) none _ (λ m sees. (see_waiter s m [] ps b path sees).0)
        (after size n _ (link_loop-Ok s paid b ps path fuel b [] ps [] path (omega arith))
          λ (t, found') r' (s', er, et, owed, at_b).
            Safe.ret {a = (b, t, found')} (s', er, et, owed, at_b ∙ found_head h b found))
