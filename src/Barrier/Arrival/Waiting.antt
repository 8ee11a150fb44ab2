-- ===== src/Barrier/Arrival/Waiting.antt =====
-- A call of `wait` at a barrier.
use usync.Prelude.{
  ℕ, zero, suc, ◌+◌, Bool, true, false, none, some, List, [], ◌∷◌, ◌≡◌, ◌≢◌, refl, ◌∙◌,
  if◌then◌else◌, match_option, Bool-cases, inl, inr, arith,
}
use usync.Prog.{Prog, ret, ◌>>=◌, ◌>>◌, assert, expect, broken_queue, not_completed}
use usync.Prog.Safe.{Safe}
use usync.Shared.{Memory, Config, cas_weak, load, non_null}
use usync.Shared.Still.{Links, view}
use usync.Shared.Parker.{park}
use usync.Shared.Parker.Still.{park-Still}
use usync.Shared.Queue.Chain.{All, first}
use usync.Barrier.{Word, same, counting, waiting, is_completed, prepare, queued}
use usync.Barrier.Arrival.Roles.{
  Phase, away, ready, linking, done, Role, at, holds, Member, Waits, Open, Inv, Sees, Goes, Ok,
}
use usync.Barrier.Arrival.Roles
use usync.Barrier.Arrival.Steps.{finish, own_cells}
use usync.Barrier.Arrival.Pushing.{push_first, push_next, push_locked, taken}
use usync.Barrier.Arrival.Completing.{Attempted, link_queue_or_complete-Ok}
use usync.Barrier.Arrival.Rules.{
  unmoved, waiter_moved, after, still, step, load-Ok, assert-Ok, cas_weak-Ok,
}

first_Member :
    (P : ℕ → Type 0) (fresh : List ℕ) (base : ℕ) → All P fresh → P base → P (first fresh base)
first_Member P [] base members here = here
first_Member P (x ∷ fresh) base (member, _) here = member

there_non_null : (h j : ℕ) → h ≡ j + 1 → non_null h ≡ some h
there_non_null zero j e = absurd (omega (arith, e))
there_non_null (suc h) j e = refl

-- After a load.
abbrev pub seen : Word → Phase → Phase
seen w p = if is_completed w then done else p

module _ (size n : ℕ) (g : Config) (me a : ℕ) where
  pub see_word :
      (p : Phase) (m : Memory Word)
      → holds p ≡ 0
      → Goes size n (at me a p) (view m) (at me a (seen m.word p)) (view m)
  see_word p m free = elim (Bool-cases (is_completed m.word)) [
    | inl over ↦ rw over (finish size n (view m) me a p free over)
    | inr todo ↦ rw todo (unmoved size n (at me a p) m m (refl, refl, λ _. refl))
  ]

  -- Every call that returns has seen that the barrier is completed.
  abbrev pub Returned : Bool → Role → Type 0
  Returned led r = r ≡ at me a done

  Attempted-Ok :
      (led : Bool) (r : Role)
      → Attempted size n g me a led r
      → Ok size n Returned
          (if led
            then ret true
            else park g me none >>= λ woken.
                assert broken_queue woken
                >> (load >>= λ w'. assert not_completed (is_completed w') >> ret false))
          r
  Attempted-Ok true r e = Safe.ret e
  Attempted-Ok false r e = rw e (
      still size n _ (park-Still g me none) λ woken. assert-Ok size n _ woken _ λ _.
        load-Ok size n _ λ m sees. (
          at me a (seen m.word Phase.queued),
          see_word Phase.queued m refl,
          assert-Ok size n _ (is_completed m.word) _ λ over. Safe.ret {a = false} (rw over refl),
        ))

-- What a thread has written into its waiter before it proposes the word `v` in the place of `w`.
abbrev pub Written : ℕ → Word → Word → Links → Type 0
Written me (counting zero) v k = ⊥
Written me (counting (suc c)) v k =
    (v ≡ waiting me false) × (k ≡ record { next = none; tail = some me; counter = c }) × (c ≢ 0)
Written me (waiting h b) v k = (v ≡ waiting me true) × (k.next ≡ non_null h) × (k.tail ≡ none)

module _ (size n : ℕ) (g : Config) (me a : ℕ) where
  -- The head of a queue is not null.
  head_there :
      (m : Memory Word) (rs : ℕ → Role) (h : ℕ)
      → Waits size n (view m).links h rs
      → non_null h ≡ some h
  head_there m rs h q =
      let (j, below, ex, there) =
        first_Member (Member size n rs) q.fresh q.base q.members q.base_member in
      there_non_null h j (q.head ∙ ex)

  pub prepare-Ok :
      (w : Word) (k : Links)
      → is_completed w ≡ false
      → same w (counting 1) ≡ false
      → Ok size n
          (λ v r. (k' : Links) × (r ≡ at me (suc a) (ready k')) × Written me w v k')
          (prepare g me w)
          (at me (suc a) (ready k))
  unfolding prepare expect ◌>>=◌
  prepare-Ok (counting zero) k todo more = absurd (ground (arith, todo))
  prepare-Ok (counting (suc c)) k todo more = step size n _ _ _ λ m sees. (
    at me (suc a) (ready (record { next = none; tail = some me; counter = c })),
    waiter_moved size n _ _ me (λ x. record x { counter = c; next = none; tail = some me }) m
        (own_cells size n (view m) me (suc a) (ready k) _ refl),
    Safe.ret {a = waiting me false} (
      record { next = none; tail = some me; counter = c },
      refl,
      (refl, refl, ground (arith, more)),
    ),
  )
  prepare-Ok (waiting h b) k todo more = step size n _ _ _ λ m sees.
      let k' : Links = record { next = non_null h; tail = none; counter = (m.heap me).counter } in
      (
        at me (suc a) (ready k'),
        waiter_moved size n _ _ me (λ x. record x { next = non_null h; tail = none }) m
            (own_cells size n (view m) me (suc a) (ready k) k' refl),
        Safe.ret {a = waiting me true} (k', refl, (refl, refl, refl)),
      )

  -- Whose waiter has taken the place of `w`.
  abbrev Pushed : Word → Role → Type 0
  Pushed (waiting h false) r =
      (s : Roles.Hold) × (r ≡ at me (suc a) (linking s)) × (s.owed ≡ 0) × (first s.path s.base ≡ me)
  Pushed _ r = r ≡ at me (suc a) Phase.queued

  queued-Ok :
      (w : Word) (r : Role)
      → Pushed w r
      → Ok size n (Returned size n g me (suc a)) (queued g me w) r
  unfolding queued ◌>>=◌
  queued-Ok (counting c) r e = Attempted-Ok size n g me (suc a) false r e
  queued-Ok (waiting h true) r e = Attempted-Ok size n g me (suc a) false r e
  queued-Ok (waiting h false) r (s, e, paid, at_head) = rw e (
      after size n _ (link_queue_or_complete-Ok size n g me (suc a) g.fuel me s paid at_head)
        (Attempted-Ok size n g me (suc a)))

  -- Putting the waiter in front of the queue.
  module _ (k : Links) (f : Word → Prog (Memory Word) Bool)
      (next : (s : Word)
        → Ok size n (Returned size n g me (suc a)) (f s) (at me (suc a) (seen s (ready k)))) where
    again :
        (m : Memory Word)
        → Sees size n (at me (suc a) (ready k)) m
        → (r' : Role) × Goes size n (at me (suc a) (ready k)) (view m) r' (view m)
          × Ok size n (Returned size n g me (suc a)) (f m.word) r'
    again m sees = (
      at me (suc a) (seen m.word (ready k)),
      see_word size n g me (suc a) (ready k) m refl,
      next m.word,
    )

    pub push-Ok :
        (w v : Word)
        → Written me w v k
        → Ok size n
            (Returned size n g me (suc a))
            (cas_weak same w v >>= λ e. match_option e (queued g me w) f)
            (at me (suc a) (ready k))
    push-Ok (counting zero) v there = absurd there
    push-Ok (counting (suc c)) v (ev, ek, more) = rw ev (
        cas_weak-Ok size n _ _ _
          (λ m sees w. (
            at me (suc a) Phase.queued,
            rw ek (push_first size n (view m) me a c w more),
            queued-Ok (counting (suc c)) _ refl,
          ))
          again)
    push-Ok (waiting h true) v (ev, en, et) = rw ev (
        cas_weak-Ok size n _ _ _
          (λ m (rs, i, lt, e, inv) w.
            let q : Open size n (view m) rs (waiting h true) = rw w at inv.queue in
            (
              at me (suc a) Phase.queued,
              push_next size n (view m) me a h k w (en ∙ head_there m rs h q) et,
              queued-Ok (waiting h true) _ refl,
            ))
          again)
    push-Ok (waiting h false) v (ev, en, et) = rw ev (
        cas_weak-Ok size n _ _ _
          (λ m (rs, i, lt, e, inv) w.
            let q : Open size n (view m) rs (waiting h false) = rw w at inv.queue in
            (
              at me (suc a) (linking (taken size n me q)),
              push_locked size n (view m) me a h k rs q w (en ∙ head_there m rs h q) et,
              queued-Ok (waiting h false) _ (taken size n me q, refl, refl, refl),
            ))
          again)
