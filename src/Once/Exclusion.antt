-- ===== src/Once/Exclusion.antt =====
-- What `Once` promises, for every number of threads and every interleaving.
use usync.Prelude.{
  ℕ, ◌+◌, ◌≤◌, ◌<◌, Bool, List, ◌++◌, update, ◌≡◌, ◌≢◌, refl, total-eq-zero, total_mono, total_add,
  ap, arith,
}
use usync.Prog.{bad_word, run, ret, halt}
use usync.Prog.Safe.{Safe, Sound, run-Sound, run-append, Safe-Outcome}
use usync.Shared.{Memory, fresh_memory, Config}
use usync.Shared.Protocol.{Sees, Moves, quiet, if-Keeps, count-Keeps}
use usync.Once.{Word, init}
use usync.Once.Roles.{Role, idle, Ok, once, Allowed, Inv, Inv-Sees, Moves-Inv, completed}
use usync.Once.Call.{caller, running, ended, IsClosure, Done, call_once-Ok, call_once_force-Ok}
use usync.Once.Client.{closure, client, start}

pub closure-IsClosure : IsClosure closure
unfolding closure
closure-IsClosure s = count-Keeps once _ _ λ w c k f. (
  running,
  ground (arith, k.calling, k.saw, k.word, k.word.tag, k.word.head, f.inside, f.owned),
  quiet once _ _ _ (λ c m. (refl, refl))
      λ panics.
        if-Keeps once panics
          (λ _. count-Keeps once _ _ λ w c k f. (
            caller,
            ground (arith, k.calling, k.saw, k.word, k.word.tag, k.word.head, f.inside, f.owned),
            Safe.ret refl,
          ))
          λ _. count-Keeps once _ _ λ w c k f. (
            ended,
            ground (arith, k.calling, k.saw, k.word, k.word.tag, k.word.head, f.inside, f.owned),
            Safe.ret refl,
          ),
)

client-Ok : (g : Config) (me : ℕ) → Ok Done (client g me) idle
unfolding client
client-Ok g me =
    quiet once _ _ _ (λ c m. (refl, refl))
      λ force.
        if-Keeps once force (λ _. call_once_force-Ok g me closure closure-IsClosure)
          λ _. call_once-Ok g me closure closure-IsClosure

Inv-start : (n : ℕ) → Inv n (fresh_memory init) (λ _. idle)
Inv-start n = record {
  calling = total-eq-zero (λ (r : Role). r.calling) n _ (λ _ _. refl);
  inside = total-eq-zero (λ (r : Role). r.within) n _ (λ _ _. refl);
  finished = ground (arith, total-eq-zero (λ (r : Role). r.ended) n (λ _. idle) (λ _ _. refl));
  owned = λ i. omega arith;
  saw = λ i. omega arith;
  word = record { tag = omega arith; head = λ _. refl };
}

reachable :
    (g : Config) (n : ℕ) (l : List (ℕ × Bool))
    → (rs : ℕ → Role) × Sound
        (Sees once)
        (Moves once)
        Allowed
        n
        (Inv n)
        (Inv-Sees n)
        (Moves-Inv n)
        Done
        (run (start g n) l)
        rs
reachable g n l =
    run-Sound (Sees once) (Moves once) Allowed n (Inv n) (Inv-Sees n) (Moves-Inv n) (start g n)
      (λ _. idle) l
      (record { counted = refl; inv = Inv-start n; safe = λ i lt. client-Ok g (i + 1) })

-- For any number of threads that each call the `Once`, by `call_once` or `call_once_force` and
-- with closures that may panic, after every schedule the closures that run and those that have
-- finished are at most one: none runs beside another, no closure finishes twice, and none runs
-- once one has finished.
pub closure_once :
    (g : Config) (n : ℕ) (l : List (ℕ × Bool))
    → (run (start g n) l).memory.counts.inside + (run (start g n) l).memory.counts.finished ≤ 1
closure_once g n l =
    let (rs, sound) = reachable g n l in
    let few = total_mono (λ (r : Role). r.within + r.ended) (λ r. r.calling) n rs sound.inv.owned in
    let both = total_add (λ (r : Role). r.within) (λ (r : Role). r.ended) n rs in
    ground (arith, few, both, sound.inv.calling, sound.inv.inside, sound.inv.finished)

-- For any number of threads that each call the `Once`, by `call_once` or `call_once_force`, after
-- every schedule: if the call of some thread has returned, then the state is COMPLETED and exactly
-- one closure has finished.
pub returned-completed :
    (g : Config) (n : ℕ) (l : List (ℕ × Bool)) (i : ℕ)
    → i < n
    → (run (start g n) l).thread i ≡ ret tt
    → ((run (start g n) l).memory.word.tag ≡ 3) × ((run (start g n) l).memory.counts.finished ≡ 1)
returned-completed g n l i lt e =
    let (rs, sound) = reachable g n l in
    let saw =
      ap (λ (r : Role). r.saw)
        (rw e at (Safe-Outcome (Sees once) (Moves once) Allowed (sound.safe i lt))) in
    ground (arith, saw, sound.inv.saw i, closure_once g n l, sound.inv.finished)

-- The invariant at a state that says COMPLETED.
abbrev Completed : ℕ → Memory Word → (ℕ → Role) → Type 0
Completed n m rs = Inv n m rs × (completed m.word ≡ 1)

Moves-Completed :
    (n : ℕ) (m : Memory Word) (rs : ℕ → Role) (i : ℕ) (m' : Memory Word) (r' : Role)
    → i < n
    → Completed n m rs
    → Moves once (rs i) m r' m'
    → Completed n m' (update rs i r')
Moves-Completed n m rs i m' r' lt (inv, e) mv =
    (Moves-Inv n m rs i m' r' lt inv mv, ground (arith, mv.final))

-- COMPLETED is final: a state that says so after some schedule says so after every longer one, and
-- still no more than the one closure has finished, and none runs.
pub completed_final :
    (g : Config) (n : ℕ) (l l' : List (ℕ × Bool))
    → (run (start g n) l).memory.word.tag ≡ 3
    → ((run (start g n) (l ++ l')).memory.word.tag ≡ 3)
      × ((run (start g n) (l ++ l')).memory.counts.finished ≡ 1)
      × ((run (start g n) (l ++ l')).memory.counts.inside ≡ 0)
completed_final g n l l' e =
    let (rs, sound) = reachable g n l in
    let (rs', later) =
      run-Sound (Sees once) (Moves once) Allowed n (Completed n)
        (λ m rs i lt (inv, _). Inv-Sees n m rs i lt inv) (Moves-Completed n) (run (start g n) l) rs
        l'
        (record {
          counted = sound.counted;
          inv = (sound.inv, ground (arith, e));
          safe = sound.safe;
        }) in
    let (inv, done) = later.inv in
    let few = total_mono (λ (r : Role). r.within + r.ended) (λ r. r.calling) n rs' inv.owned in
    let both = total_add (λ (r : Role). r.within) (λ (r : Role). r.ended) n rs' in
    rw (run-append (start g n) l l')
      (ground (arith, done, few, both, inv.calling, inv.inside, inv.finished))

-- For any number of threads that each call the `Once`, no thread is stopped by a failed assertion
-- about the state word, after any schedule.
pub state_words_hold :
    (g : Config) (n : ℕ) (l : List (ℕ × Bool)) (i : ℕ)
    → i < n
    → (run (start g n) l).thread i ≢ halt bad_word
state_words_hold g n l i lt e =
    let (rs, sound) = reachable g n l in
    rw e at (Safe-Outcome (Sees once) (Moves once) Allowed (sound.safe i lt))
