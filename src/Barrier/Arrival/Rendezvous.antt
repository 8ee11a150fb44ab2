-- ===== src/Barrier/Arrival/Rendezvous.antt =====
-- No call of `wait` returns before as many calls have begun as the barrier waits for.
use usync.Prelude.{
  ℕ, zero, suc, ◌+◌, ◌^◌, ◌≤◌, ◌<◌, Bool, true, false, List, ◌≡◌, false, ◌≢◌, refl, sym, ap, ◌∙◌,
  total-eq-zero, arith,
}
use usync.Prog.{run}
use usync.Prog.Safe.{Safe, run-Sound}
use usync.Shared.{Memory, Config, new_waiter}
use usync.Shared.Still.{Links, View, view, links}
use usync.Barrier.{
  Word, same, same_eq, counting, completed, is_completed, new, wait_loop, wait_slow, wait,
}
use usync.Barrier.Client.{arriver, arrivals}
use usync.Barrier.Arrival.Roles.{
  away, ready, done, Role, at, in_queue, holding, Allowed, Open, Inv, Sees, Moves, Ok,
}
use usync.Barrier.Arrival.Steps.{arrive, leave, own_cells, last}
use usync.Barrier.Arrival.Waiting.{seen, see_word, Returned, prepare-Ok, push-Ok}
use usync.Barrier.Arrival.Rules.{waiter_moved, after, step, load-Ok, if-Ok, cas_weak-Ok}

-- Between two calls.
abbrev Outside : Unit {0} → Role → Type 0
Outside _ r = r.phase ≡ away

module _ (size n : ℕ) (g : Config) (me : ℕ) where
  wait_loop-Ok :
      (a f : ℕ) (w : Word) (k : Links)
      → Ok size n
          (Returned size n g me (suc a))
          (wait_loop g me f w)
          (at me (suc a) (seen w (ready k)))
  unfolding wait_loop
  wait_loop-Ok a zero w k = Safe.halt tt
  wait_loop-Ok a (suc f) w k =
      if-Ok size n (is_completed w) (λ over. rw over (Safe.ret {a = false} refl))
        λ todo. rw todo (
          if-Ok size n (same w (counting 1))
            (λ one.
              cas_weak-Ok size n w completed _
                (λ m sees found. (
                  at me (suc a) done,
                  last size n (view m) me a (ready k) (found ∙ same_eq w (counting 1) one) refl,
                  Safe.ret {a = true} refl,
                ))
                λ m sees. (
                  at me (suc a) (seen m.word (ready k)),
                  see_word size n g me (suc a) (ready k) m refl,
                  wait_loop-Ok a f m.word k,
                ))
            λ more. after size n _ (prepare-Ok size n g me a w k todo more) λ v r (k', e, written).
              rw e (
                push-Ok size n g me a k' (wait_loop g me f) (λ s. wait_loop-Ok a f s k') w v
                  written))

  -- Whatever the other threads do, a `wait` that returns has seen that the barrier is completed.
  wait-Arrived : (a : ℕ) → Ok size n (Returned size n g me (suc a)) (wait g me) (at me (suc a) away)
  unfolding wait wait_slow
  wait-Arrived a = load-Ok size n _ λ m sees. (
    at me (suc a) (seen m.word away),
    see_word size n g me (suc a) away m refl,
    if-Ok size n (is_completed m.word) (λ over. rw over (Safe.ret {a = false} refl))
        λ todo.
          let started : Ok size n (Returned size n g me (suc a)) (wait_loop g me g.fuel m.word)
              (at me (suc a) (ready (links new_waiter))) =
            rw todo at (wait_loop-Ok a g.fuel m.word (links new_waiter)) in
          rw todo (
            step size n _ _ _ λ m' sees'. (
              at me (suc a) (ready (links new_waiter)),
              waiter_moved size n _ _ me (λ _. new_waiter) m'
                  (own_cells size n (view m') me (suc a) away (links new_waiter) refl),
              started,
            )),
  )

  arriver-Ok : (rounds a : ℕ) → Ok size n Outside (arriver g me rounds) (at me a away)
  unfolding arriver
  arriver-Ok zero a = Safe.ret refl
  arriver-Ok (suc k) a = step size n _ _ _ λ m sees. (
    at me (suc a) away,
    arrive size n (view m) me a,
    after size n _ (wait-Arrived a) λ led r e. rw e (
        step size n _ _ _ λ m' sees'.
          (at me (suc a) away, leave size n (view m') me (suc a), arriver-Ok k (suc a))),
  )

abbrev outside : ℕ → Role
outside j = at (j + 1) 0 away

start_queue : (v : View Word) (size n c : ℕ) → c ≡ size → Open size n v outside (counting c)
start_queue v size n zero e = tt
start_queue v size n (suc c) e = (e, total-eq-zero in_queue n outside (λ j _. refl))

Inv-start :
    (size n : ℕ) (m : Memory Word)
    → m.word ≡ counting size
    → m.counts.inside ≡ 0
    → m.counts.finished ≡ 0
    → Inv size n (view m) outside
Inv-start size n m word none_in none_out = record {
  me = λ j. refl;
  began = λ j. omega arith;
  arrivals = total-eq-zero (λ (r : Role). r.arrived) n outside (λ j _. refl) ∙ sym none_in;
  locks = rw word (total-eq-zero holding n outside (λ j _. refl));
  complete = rw word (λ c. ground (arith, c));
  returned = λ f. absurd (f none_out);
  local = λ j _. tt;
  queue = rw word (start_queue (view m) size n size refl);
  settled = λ h w. absurd cc;
}

-- After every schedule the invariant holds for some roles.
pub reachable :
    (g : Config) (size n rounds : ℕ) (l : List (ℕ × Bool))
    → size < 2 ^ 63
    → (rs : ℕ → Role) × Inv size n (view (run (arrivals g size n rounds) l).memory) rs
unfolding new
reachable g size n rounds l fits =
    let (rs, sound) =
      run-Sound (Sees size n) (Moves size n) Allowed n (λ m rs. Inv size n (view m) rs)
        (λ m rs i lt inv. (rs, i, lt, refl, inv))
        (λ m rs i m' r' lt inv moves. moves rs i lt refl inv) (arrivals g size n rounds) outside l
        (record {
          counted = refl;
          inv =
              Inv-start size n (arrivals g size n rounds).memory (ap counting (omega (arith, fits)))
                refl refl;
          safe = λ i lt. arriver-Ok size n g (i + 1) rounds 0;
        }) in
    (rs, sound.inv)

-- For a barrier of `size` threads, below 2 ^ 63, and any number of threads that call `wait` any number
-- of times, after every schedule: if some call has returned, at least `size` calls have begun.
pub rendezvous :
    (g : Config) (size n rounds : ℕ) (l : List (ℕ × Bool))
    → size < 2 ^ 63
    → (run (arrivals g size n rounds) l).memory.counts.finished ≢ 0
    → size ≤ (run (arrivals g size n rounds) l).memory.counts.inside
rendezvous g size n rounds l fits returned =
    let (rs, inv) = reachable g size n rounds l fits in inv.complete (inv.returned returned)
