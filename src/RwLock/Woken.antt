-- ===== src/RwLock/Woken.antt =====
-- src/rwlock.rs: waking waiters of the lock up, for a thread that runs alone.
use usync.Prelude.{
  ℕ, zero, suc, ◌≤◌, Bool, true, false, ◌&&◌, Option, none, some, List, [], ◌∷◌, ◌≡◌, refl, ap, ◌∙◌,
  inl, ◌==◌, if◌then◌else◌, match_option, length, not, update, update_self, arith,
}
use usync.Prog.{broken_queue, solo, skip, ◌>>=◌, ◌>>◌, access, assert, expect, ret}
use usync.Prog.Solo.{resume, solo-bind}
use usync.Shared.{Waiter, Memory, with_waiter, read, cas_weak, Config}
use usync.Shared.Parker.{unpark}
use usync.Shared.Parker.Woken.{front, woken, wake_each, Waits, unpark_lem}
use usync.Shared.Queue.Linked.{Apart, Distinct}
use usync.RwLock.State.{State, same, minus}
use usync.RwLock.State.Bits.{minus_queue_locked}
use usync.RwLock.Wake
use usync.RwLock.Wake.{Code, unpark_waiters_loop, unpark_waiters}

-- The waiters `xs` follow by their `prev`, no other one follows them, and they wait for the lock `self`.
abbrev pub Back : (ℕ → Waiter) → ℕ → List ℕ → Type 0
Back heap self [] = Unit
Back heap self (x ∷ xs) =
    ((heap x).waiting_on ≡ some self)
    × ((heap x).prev ≡ front xs)
    × Waits (heap x)
    × Back heap self xs

-- Waking one waiter up leaves the others alone.
woken-Back :
    {S : Type 0} (m : Memory S) (self x : ℕ) (xs : List ℕ)
    → Apart x xs
    → Back m.heap self xs
    → Back (with_waiter x woken m).heap self xs
woken-Back m self x [] apart back = tt
woken-Back m self x (y ∷ ys) (ne, apart) (lock, prev, waits, back) =
    let other : (x == y) ≡ false = ground (arith, ne) in
    (rw other lock, rw other prev, rw other waits, woken-Back m self x ys apart back)

pub positive : (n : ℕ) → 1 ≤ n → (f : ℕ) × (n ≡ suc f)
positive zero h = absurd (omega (arith, h))
positive (suc f) h = (f, refl)

cas_choice :
    {A : Type 0} (b : Bool) (new : State) (f : Option State → Code A) (m : Memory State)
    → b ≡ true
    → solo (f (if b then none else some m.word)) (record m { word = if b then new else m.word })
      ≡ solo (f none) (record m { word = new })
cas_choice true new f m e = refl
cas_choice false new f m e = cc

-- Alone, a compare-exchange succeeds on the word that it expects.
solo_cas :
    {A : Type 0} (old new : State) (f : Option State → Code A) (m : Memory State)
    → m.word ≡ old
    → solo (cas_weak same old new >>= f) m ≡ solo (f none) (record m { word = new })
unfolding solo access ◌>>=◌
solo_cas old new f m word =
    let hit : same old old && not false ≡ true = ground arith in
    cas_choice (same m.word old && not false) new f m (ap (λ w. same w old && not false) word ∙ hit)

module _ (g : Config) (self : ℕ) where
  -- What `unpark_waiters` does once it has woken a waiter up.
  abbrev next_round : ℕ → Option ℕ → Unit {0} → Code (Unit {0})
  next_round f prev _ = match_option prev skip λ p. unpark_waiters_loop g self f p

  -- A round of `unpark_waiters`, after it has read for which lock the waiter waits.
  round_lem :
      (f x : ℕ) (o p : Option ℕ) (m : Memory State)
      → o ≡ some self
      → (m.heap x).prev ≡ p
      → solo
          (expect broken_queue o >>= λ w.
            assert broken_queue (w == self)
            >> (read x (λ w. w.prev) >>= λ prev. unpark g x >>= next_round f prev))
          m
        ≡ solo (unpark g x >>= next_round f p) m
  unfolding solo access ◌>>=◌ assert expect
  round_lem f x o p m lock prev =
      let own : (self == self) ≡ true = ground arith in
      rw (lock, own) (ap (λ q. solo (unpark g x >>= next_round f q) m) prev)

  -- Alone, on fuel for all the waiters, `unpark_waiters` wakes up each of them, and changes nothing
  -- else.
  pub unpark_waiters_loop_lem :
      (f x : ℕ) (xs : List ℕ) (m : Memory State)
      → length (x ∷ xs) ≤ f
      → Distinct (x ∷ xs)
      → Back m.heap self (x ∷ xs)
      → solo (unpark_waiters_loop g self f x) m ≡ (wake_each (x ∷ xs) m, inl tt)
  unfolding unpark_waiters_loop solo access ◌>>=◌ assert expect resume
  unpark_waiters_loop_lem zero x xs m le d back = absurd (omega (arith, le))
  unpark_waiters_loop_lem (suc f) x [] m le d (lock, prev, waits, back) =
      round_lem f x (m.heap x).waiting_on none m lock prev
      ∙ (solo-bind (unpark g x) (next_round f none) m
          ∙ ap (resume (next_round f none)) (unpark_lem g x m waits))
  unpark_waiters_loop_lem (suc f) x (y ∷ ys) m le (apart, d) (lock, prev, waits, back) =
      round_lem f x (m.heap x).waiting_on (some y) m lock prev
      ∙ (solo-bind (unpark g x) (next_round f (some y)) m
          ∙ ap (resume (next_round f (some y))) (unpark_lem g x m waits)
          ∙ unpark_waiters_loop_lem f y ys (with_waiter x woken m) (omega arith) d
              (woken-Back m self x (y ∷ ys) apart back))

  -- The memory after the whole queue has been taken off the word and woken up, from the tail `t` on.
  abbrev pub all_woken : State → ℕ → List ℕ → Memory State → Memory State
  all_woken s t rest m =
      wake_each (t ∷ rest)
        (record m { word = record s { remaining = 0; queued = false; queue_locked = false } })

  -- The memory after only the tail `t` has been taken off, and its predecessor is the new tail.
  abbrev pub tail_woken : State → (h t new_tail : ℕ) → Memory State → Memory State
  tail_woken s h t new_tail m = with_waiter t woken (
      with_waiter t (λ w. record w { prev = none })
        (record (with_waiter h (λ w. record w { tail = some new_tail }) m) {
          word = record s { queue_locked = false };
        }))

  abbrev all_or_again : ℕ → Option State → Code (Option State)
  all_or_again t e = match_option e (unpark_waiters g self t >>= λ _. ret none) λ s'. ret (some s')

  pub wake_all_lem :
      (s : State) (t : ℕ) (rest : List ℕ) (m : Memory State)
      → m.word ≡ s
      → length (t ∷ rest) ≤ g.fuel
      → Distinct (t ∷ rest)
      → Back m.heap self (t ∷ rest)
      → solo (Wake.wake_all g self s t) m ≡ (all_woken s t rest m, inl none)
  unfolding Wake.wake_all unpark_waiters solo access ◌>>=◌ resume
  wake_all_lem s t rest m word le d back =
      let m' = record m {
        word = record s { remaining = 0; queued = false; queue_locked = false };
      } in
      solo_cas s (record s { remaining = 0; queued = false; queue_locked = false }) (all_or_again t)
        m word
      ∙ solo-bind (unpark_waiters_loop g self g.fuel t) (λ _. ret none) m'
      ∙ ap (resume (λ _. ret none)) (unpark_waiters_loop_lem g.fuel t rest m' le d back)

  -- The waiter at the tail before it is woken up alone.
  cut_off :
      (heap : ℕ → Waiter) (h t : ℕ) (x : Option ℕ)
      → (lock : (heap t).waiting_on ≡ some self) → Waits (heap t)
      → Back
          (update
            (update heap h (record (heap h) { tail = x }))
            t
            (record (update heap h (record (heap h) { tail = x }) t) { prev = none }))
          self
          (t ∷ [])
  cut_off heap h t x lock waits =
      let one = update heap h (record (heap h) { tail = x }) in
      let here = update_self one t (record (one t) { prev = none }) in
      let waiting_on : (one t).waiting_on ≡ (heap t).waiting_on = ground arith in
      let parker : (one t).parker ≡ (heap t).parker = ground arith in
      let event : (one t).event ≡ (heap t).event = ground arith in
      rw here (waiting_on ∙ lock, refl, rw (parker, event) waits, tt)

  pub wake_one_lem :
      (s : State) (h t new_tail : ℕ) (m : Memory State)
      → m.word ≡ s
      → s.queue_locked ≡ true
      → 1 ≤ g.fuel
      → (m.heap t).waiting_on ≡ some self
      → Waits (m.heap t)
      → solo (Wake.wake_one g self h t new_tail) m ≡ (tail_woken s h t new_tail m, inl none)
  unfolding Wake.wake_one unpark_waiters solo access ◌>>=◌ resume
  wake_one_lem s h t new_tail m word locked le lock waits =
      let m1 = with_waiter h (λ w. record w { tail = some new_tail }) m in
      let cut : State → Memory State =
        λ w. with_waiter t (λ x. record x { prev = none }) (record m1 { word = w }) in
      let freed : minus 8 m.word ≡ record s { queue_locked = false } =
        ap (minus 8) word ∙ minus_queue_locked s locked in
      ap (λ w. solo (unpark_waiters_loop g self g.fuel t >>= λ _. ret none) (cut w)) freed
      ∙ solo-bind (unpark_waiters_loop g self g.fuel t) (λ _. ret none)
          (cut (record s { queue_locked = false }))
      ∙ ap (resume (λ _. ret none)) (
          unpark_waiters_loop_lem g.fuel t [] (cut (record s { queue_locked = false })) le (tt, tt)
            (cut_off m.heap h t (some new_tail) lock waits))
