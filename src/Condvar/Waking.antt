-- ===== src/Condvar/Waking.antt =====
-- src/condvar.rs: whom `unpark_all` wakes up, for a thread that runs alone while no mutex is held.
use usync.Prelude.{
  ℕ, zero, suc, ◌<◌, Bool, true, false, Option, some, List, [], ◌∷◌, ◌≡◌, ◌≢◌, refl, sym, ap, ◌∙◌,
  inl, inr, ◌==◌, not, length, match_option, if◌then◌else◌, update_self, update_same, update_twice,
  arith, ◌⊎◌,
}
use usync.Prog.{
  Prog, Reason, ret, act, halt, solo, ◌>>=◌, ◌>>◌, access, assert, expect, bad_word, broken_queue,
}
use usync.Prog.Solo.{resume, solo-bind}
use usync.Shared.{Memory, with_waiter, Config, non_null}
use usync.Shared.Parker.{unpark}
use usync.Shared.Parker.Woken.{front, woken, wake_each, Forward, woken-Forward, unpark_lem}
use usync.Shared.Queue.Linked.{Apart, Distinct}
use usync.RwLock.State.{State}
use usync.RwLock.Woken.{positive}
use usync.RwLock.Lock.{try_requeue, try_requeue_loop, try_queue}
use usync.Condvar.{Guarded, Words, init, Code, zoom, mutex_part, mutex_whole, on_mutex}
use usync.Condvar.Notify.{requeue_loop, unpark_requeue, unpark_waiters, unpark_all}

-- Code that runs alone in a part of the memory.
solo-zoom :
    {M N A : Type 0} (part : M → N) (whole : M → N → M)
    → ((m : M) (x : N) → part (whole m x) ≡ x)
    → ((m : M) (x y : N) → whole (whole m x) y ≡ whole m y)
    → ((m : M) → whole m (part m) ≡ m)
    → (p : Prog N A) (m : M)
    → solo (zoom part whole p) m ≡ (whole m (solo p (part m)).0, (solo p (part m)).1)
unfolding solo zoom
solo-zoom part whole get set same (ret a) m = ap (λ x. (x, inl a)) (sym (same m))
solo-zoom part whole get set same (halt r) m = ap (λ x. (x, inr r)) (sym (same m))
solo-zoom part whole get set same (act e k) m =
    solo-zoom part whole get set same (k false (part m)) (whole m (e false (part m)))
    ∙ ap
        (λ x. (
          whole (whole m (e false (part m))) (solo (k false (part m)) x).0,
          (solo (k false (part m)) x).1,
        ))
        (get m (e false (part m)))
    ∙ ap (λ x. (x, (solo (k false (part m)) (e false (part m))).1))
        (set m (e false (part m)) (solo (k false (part m)) (e false (part m))).0)

-- The waiters `xs` wait with mutexes that are not locked.
abbrev pub Free : Memory Words → List ℕ → Type 0
Free m [] = Unit
Free m (x ∷ xs) =
    ((m.heap x).flags ≢ 0)
    × ((l : ℕ) × ((m.heap x).waiting_on ≡ some l) × ((m.word.mutexes l).state.locked ≡ false))
    × Free m xs

-- They do so whatever the word of the condition variable is.
emptied-Free :
    (m : Memory Words) (xs : List ℕ)
    → Free m xs
    → Free (record m { word = record m.word { condvar = init } }) xs
emptied-Free m [] free = tt
emptied-Free m (x ∷ xs) (flags, lock, free) = (flags, lock, emptied-Free m xs free)

-- Waking one waiter up leaves the others alone.
woken-Free :
    (m : Memory Words) (x : ℕ) (xs : List ℕ)
    → Apart x xs
    → Free m xs
    → Free (with_waiter x woken m) xs
woken-Free m x [] apart free = tt
woken-Free m x (y ∷ ys) (ne, apart) (flags, lock, free) =
    let other : (x == y) ≡ false = ground (arith, ne) in
    (rw other flags, rw other lock, woken-Free m x ys apart free)

assert_lem :
    {M A : Type 0} (r : Reason) (b : Bool) (p : Prog M A) (m : M)
    → b ≡ true
    → solo (assert r b >> p) m ≡ solo p m
unfolding assert ◌>>=◌
assert_lem r true p m e = refl
assert_lem r false p m e = cc

-- The loop of `try_requeue`, at a lock that is not held.
refuse_lem :
    (g : Config) (l w f : ℕ) (locked : Bool) (m : Memory State)
    → locked ≡ false
    → solo
        (if not locked
          then ret false
          else try_queue g l w m.word >>= λ e.
              match_option e (ret true) λ s. try_requeue_loop g l w f s)
        m
      ≡ (m, inl false)
unfolding solo
refuse_lem g l w f false m e = refl
refuse_lem g l w f true m e = cc

-- It is not put into the queue of the mutex.
try_requeue_lem :
    (g : Config) (l w f : ℕ) (m : Memory State)
    → g.fuel ≡ suc f
    → (m.heap w).flags ≢ 0
    → (m.heap w).waiting_on ≡ some l
    → m.word.locked ≡ false
    → solo (try_requeue g l w) m ≡ (m, inl false)
unfolding try_requeue try_requeue_loop solo access assert ◌>>=◌
try_requeue_lem g l w f m fuel flags lock free =
    let some_flag : not ((m.heap w).flags == 0) ≡ true = ground (arith, flags) in
    let own : match_option (m.heap w).waiting_on false (λ k. k == l) ≡ true =
      rw lock (ground arith) in
    assert_lem broken_queue (not ((m.heap w).flags == 0)) _ m some_flag
    ∙ assert_lem broken_queue (match_option (m.heap w).waiting_on false (λ k. k == l)) _ m own
    ∙ ap (λ k. solo (try_requeue_loop g l w k m.word) m) fuel
    ∙ refuse_lem g l w f m.word.locked m free

mutex_get : (l : ℕ) (m : Memory Words) (x : Memory State) → mutex_part l (mutex_whole l m x) ≡ x
mutex_get l m x =
    let e = update_self m.word.mutexes l (record { state = x.word; counts = x.counts }) in
    λ i. record x { word = (e i).state; counts = (e i).counts }

mutex_set :
    (l : ℕ) (m : Memory Words) (x y : Memory State)
    → mutex_whole l (mutex_whole l m x) y ≡ mutex_whole l m y
mutex_set l m x y =
    let new : Guarded = record { state = y.word; counts = y.counts } in
    let old : Guarded = record { state = x.word; counts = x.counts } in
    let e = update_twice m.word.mutexes l old new in
    λ i. record (mutex_whole l m y) { word = record { condvar = m.word.condvar; mutexes = e i } }

mutex_same : (l : ℕ) (m : Memory Words) → mutex_whole l m (mutex_part l m) ≡ m
mutex_same l m = λ i. record m { word = record m.word { mutexes = update_same m.word.mutexes l i } }

-- The same on the whole memory.
on_mutex_lem :
    (g : Config) (l w f : ℕ) (m : Memory Words)
    → g.fuel ≡ suc f
    → (m.heap w).flags ≢ 0
    → (m.heap w).waiting_on ≡ some l
    → (m.word.mutexes l).state.locked ≡ false
    → solo (on_mutex l (try_requeue g l w)) m ≡ (m, inl false)
on_mutex_lem g l w f m fuel flags lock free =
    solo-zoom (mutex_part l) (mutex_whole l) (mutex_get l) (mutex_set l) (mutex_same l)
      (try_requeue g l w) m
    ∙ ap (λ (r : Memory State × (Bool ⊎ Reason)). (mutex_whole l m r.0, r.1))
        (try_requeue_lem g l w f (mutex_part l m) fuel flags lock free)
    ∙ ap (λ x. (x, inl false)) (mutex_same l m)

module _ (g : Config) where
  -- What the loop of `unpark_requeue` does with a waiter, and with the next one.
  abbrev try_next : ℕ → ℕ → Option ℕ → Bool → Code (Unit {0})
  try_next f x next requeued =
      if requeued then requeue_loop g f next else unpark g x >>= λ _. requeue_loop g f next

  round_lem :
      (f x : ℕ) (o : Option ℕ) (l : ℕ) (next : Option ℕ) (m : Memory Words)
      → o ≡ some l
      → solo
          (expect broken_queue o >>= λ lock.
            on_mutex lock (try_requeue g lock x) >>= try_next f x next)
          m
        ≡ solo (on_mutex l (try_requeue g l x) >>= try_next f x next) m
  unfolding expect ◌>>=◌
  round_lem f x o l next m e = rw e refl

  requeue_loop_lem :
      (f e : ℕ) (xs : List ℕ) (m : Memory Words)
      → g.fuel ≡ suc e
      → length xs < f
      → Distinct xs
      → Forward m.heap xs
      → Free m xs
      → solo (requeue_loop g f (front xs)) m ≡ (wake_each xs m, inl tt)
  unfolding requeue_loop solo access ◌>>=◌ resume
  requeue_loop_lem zero e xs m fuel le d forward free = absurd (omega (arith, le))
  requeue_loop_lem (suc f) e [] m fuel le d forward free = refl
  requeue_loop_lem (suc f) e (x ∷ xs) m fuel le (apart, d) (next, waits, forward)
        (flags, (l, lock, open_lock), free) =
      round_lem f x (m.heap x).waiting_on l (m.heap x).next m lock
      ∙ ap (λ o. solo (on_mutex l (try_requeue g l x) >>= try_next f x o) m) next
      ∙ solo-bind (on_mutex l (try_requeue g l x)) (try_next f x (front xs)) m
      ∙ ap (resume (try_next f x (front xs))) (on_mutex_lem g l x e m fuel flags lock open_lock)
      ∙ solo-bind (unpark g x) (λ _. requeue_loop g f (front xs)) m
      ∙ ap (resume (λ _. requeue_loop g f (front xs))) (unpark_lem g x m waits)
      ∙ requeue_loop_lem f e xs (with_waiter x woken m) fuel (omega (arith, le)) d
          (woken-Forward m x xs apart forward) (woken-Free m x xs apart free)

  -- Alone, at a word of the condition variable with QUEUE_LOCKED and with signals, on fuel for the queue:
  -- where the waiters `x` and `xs` follow the head of the word by their `next`, without repetition, none of
  -- them has been woken up, and the mutexes that they have given up are not locked, `unpark_all` empties
  -- the word, wakes up every one of them, requeues none, and changes nothing else.
  pub unpark_all_wakes :
      (x : ℕ) (xs : List ℕ) (m : Memory Words)
      → m.word.condvar.queue_locked ≡ true
      → m.word.condvar.signals ≢ 0
      → non_null m.word.condvar.head ≡ some x
      → length (x ∷ xs) < g.fuel
      → Distinct (x ∷ xs)
      → Forward m.heap (x ∷ xs)
      → Free m (x ∷ xs)
      → solo (unpark_all g) m
        ≡ (wake_each (x ∷ xs) (record m { word = record m.word { condvar = init } }), inl tt)
  unfolding unpark_all unpark_waiters unpark_requeue zoom solo access expect ◌>>=◌
  unpark_all_wakes x xs m locked signals head le d forward free =
      let m' = record m { word = record m.word { condvar = init } } in
      let w = m.word.condvar in
      let some_signal : not (w.signals == 0) ≡ true = ground (arith, signals) in
      let (f, fuel) = positive g.fuel (omega (arith, le)) in
      assert_lem bad_word w.queue_locked _ m' locked
      ∙ assert_lem bad_word (not (w.signals == 0)) _ m' some_signal
      ∙ ap (λ o. solo (expect bad_word o >>= λ h. requeue_loop g g.fuel (some h)) m') head
      ∙ requeue_loop_lem g.fuel f (x ∷ xs) m' fuel le d forward (emptied-Free m (x ∷ xs) free)
