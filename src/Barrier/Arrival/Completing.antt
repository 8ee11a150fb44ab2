-- ===== src/Barrier/Arrival/Completing.antt =====
-- The thread that holds QUEUE_LOCKED at a barrier completes it only when its count is used up.
use usync.Prelude.{
  ℕ, zero, suc, ◌-◌, Bool, true, false, none, some, ◌≡◌, refl, sym, ap, subst, ◌==◌, if◌then◌else◌,
  arith,
}
use usync.Prog.Safe.{Safe}
use usync.Shared.{Config}
use usync.Shared.Still.{view}
use usync.Shared.Queue.Chain.{first}
use usync.Barrier.{waiting, complete, link_queue_or_complete}
use usync.Barrier.Still.{wake_loop-Still}
use usync.Barrier.Arrival.Roles.{Hold, queued, linking, done, Role, at, Open, Ok}
use usync.Barrier.Arrival.Locked.{locked}
use usync.Barrier.Arrival.Holding.{note_counter, write_counter, release, resnap, complete_all}
use usync.Barrier.Arrival.Linking.{get_and_link_queue-Ok}
use usync.Barrier.Arrival.Rules.{
  waiter_moved, after, still, step, modify-Ok, assert-Ok, if-Ok, cas_weak-Ok,
}

module _ (size n : ℕ) (g : Config) (me a : ℕ) where
  -- Who completes the barrier is done; any other thread stays in the queue.
  abbrev pub Attempted : Bool → Role → Type 0
  Attempted b r = r ≡ at me a (if b then done else queued)

  complete-Ok :
      (s : Hold)
      → s.owed ≡ 0
      → s.counter ≡ some 0
      → Ok size n Attempted (complete g) (at me a (linking s))
  unfolding complete
  complete-Ok s paid used = step size n _ _ _ λ m sees. (
    at me a done,
    complete_all size n (view m) me a s paid used,
    assert-Ok size n _ _ _ λ q.
        assert-Ok size n _ _ _
          λ l. still size n _ (wake_loop-Still g g.fuel _) λ _. Safe.ret {a = true} refl,
  )

  pub link_queue_or_complete-Ok :
      (f h : ℕ) (s : Hold)
      → s.owed ≡ 0
      → first s.path s.base ≡ h
      → Ok size n Attempted (link_queue_or_complete g f (waiting h true)) (at me a (linking s))
  unfolding link_queue_or_complete
  link_queue_or_complete-Ok zero h s paid at_head = Safe.halt tt
  link_queue_or_complete-Ok (suc f) h s paid at_head = assert-Ok size n _ _ _ λ q.
      assert-Ok size n _ _ _ λ l.
        after size n _ (get_and_link_queue-Ok size n me a s g.fuel h s.path refl paid at_head)
          λ (_, t, found) r' (s, er, et, owed, at_h).
            rw (er, et, ← owed)
              (step size n _ _ _ λ m sees.
                let c = (m.heap s.tail).counter in
                let s' : Hold = record s { owed = 0; counter = some (c - s.owed) } in
                (
                  at me a (linking (record s { counter = some c })),
                  note_counter size n (view m) me a s c refl,
                  modify-Ok size n (at me a (linking s')) s.tail
                      (λ x. record x { counter = c - s.owed }) _
                      (λ m' sees'.
                        waiter_moved size n _ _ s.tail (λ x. record x { counter = c - s.owed }) m'
                          (write_counter size n (view m') me a (record s { counter = some c }) c
                            refl))
                      (if-Ok size n (c - s.owed == 0)
                        (λ used. complete-Ok s' refl (ap some (ground (arith, used))))
                        λ more.
                          cas_weak-Ok size n (waiting h true) (waiting h false) _
                            (λ m' sees' w. (
                              at me a queued,
                              release size n (view m') me a s' h w refl at_h (c - s.owed) refl
                                  (ground (arith, more)),
                              Safe.ret {a = false} refl,
                            ))
                            λ m' (rs, i, lt, e, inv).
                              let (h', w) = locked size n (view m') me a s' rs i lt e inv in
                              let q : Open size n (view m') rs (waiting h' true) =
                                rw w at inv.queue in
                              let s'' : Hold = record {
                                path = q.fresh;
                                base = q.base;
                                tail = q.tail;
                                owed = 0;
                                counter = none;
                              } in
                              (
                                at me a (linking s''),
                                resnap size n (view m') me a s' h' rs q w,
                                subst
                                    (λ x.
                                      Ok size n Attempted (link_queue_or_complete g f x)
                                        (at me a (linking s'')))
                                    (sym w) (link_queue_or_complete-Ok f h' s'' refl (sym q.head)),
                              )),
                ))
