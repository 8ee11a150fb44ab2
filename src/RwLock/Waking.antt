-- ===== src/RwLock/Waking.antt =====
-- src/rwlock.rs: whom `unpark` wakes up, for a thread that is alone with the queue.
use usync.Prelude.{
  ℕ, suc, ◌≤◌, Bool, true, false, Option, none, List, [], ◌∷◌, ◌≡◌, refl, ap, ◌∙◌, inl, ◌==◌,
  if◌then◌else◌, match_option, length, arith,
}
use usync.Prog.{bad_word, solo, skip, ◌>>=◌, ◌>>◌, access, assert}
use usync.Prog.Solo.{resume, solo-bind}
use usync.Shared.{Memory, read, Config}
use usync.Shared.Parker.Woken.{front}
use usync.Shared.Queue.{get_and_link_queue}
use usync.Shared.Queue.Linked.{Distinct, Queue, linked, get_and_link_queue_lem, word-linked}
use usync.RwLock.State.{State}
use usync.RwLock.Wake
use usync.RwLock.Wake.{Code, unpark_waiters_loop, unpark_waiters}
use usync.RwLock.Woken.{Back, all_woken, tail_woken, wake_all_lem, wake_one_lem, positive}

module _ (g : Config) (self : ℕ) where
  -- The memory after `unpark`, at a queue from `h` to `t` that has been linked.
  abbrev pub woken_up : State → (h t : ℕ) → List ℕ → Memory State → Memory State
  woken_up s h t rest m =
      if (m.heap t).flags == 0
      then all_woken g self s t rest m
      else match_option (front rest) (all_woken g self s t rest m)
          λ new_tail. tail_woken g self s h t new_tail m

  -- What `unpark` does with the queue that it has linked.
  abbrev choose_waiters : State → ℕ × ℕ × List ℕ → Code (Option State)
  choose_waiters s (head, tail, _) = do
    flags ← read tail (λ w. w.flags)
    if flags == 0 then Wake.wake_all g self s tail else do
      prev ← read tail (λ w. w.prev)
      match_option prev (Wake.wake_all g self s tail)
          λ new_tail. Wake.wake_one g self head tail new_tail

  -- The tail is a writer.
  writer_lem :
      (s : State) (h t : ℕ) (rest : List ℕ) (m : Memory State)
      → m.word ≡ s
      → s.queue_locked ≡ true
      → length (t ∷ rest) ≤ g.fuel
      → Distinct (t ∷ rest)
      → Back m.heap self (t ∷ rest)
      → solo
          (match_option
            (front rest)
            (Wake.wake_all g self s t)
            λ new_tail. Wake.wake_one g self h t new_tail)
          m
        ≡ (
          match_option
              (front rest)
              (all_woken g self s t rest m)
              (λ new_tail. tail_woken g self s h t new_tail m),
          inl none,
        )
  writer_lem s h t [] m word locked le d back = wake_all_lem g self s t [] m word le d back
  writer_lem s h t (x ∷ xs) m word locked le d (lock, prev, waits, _) =
      wake_one_lem g self s h t x m word locked (omega (arith, le)) lock waits

  -- Whether the tail is a reader is `b`.
  choice_lem :
      (b : Bool) (s : State) (h t : ℕ) (rest : List ℕ) (m : Memory State)
      → m.word ≡ s
      → s.queue_locked ≡ true
      → length (t ∷ rest) ≤ g.fuel
      → Distinct (t ∷ rest)
      → Back m.heap self (t ∷ rest)
      → solo
          (if b
            then Wake.wake_all g self s t
            else read t (λ w. w.prev) >>= λ prev.
                match_option prev
                  (Wake.wake_all g self s t)
                  λ new_tail. Wake.wake_one g self h t new_tail)
          m
        ≡ (
          if b
              then all_woken g self s t rest m
              else match_option
                  (front rest)
                  (all_woken g self s t rest m)
                  λ new_tail. tail_woken g self s h t new_tail m,
          inl none,
        )
  unfolding solo access ◌>>=◌
  choice_lem true s h t rest m word locked le d back = wake_all_lem g self s t rest m word le d back
  choice_lem false s h t rest m word locked le d back =
      ap
        (λ p.
          solo
            (match_option p (Wake.wake_all g self s t)
              λ new_tail. Wake.wake_one g self h t new_tail)
            m)
        back.1
      ∙ writer_lem s h t rest m word locked le d back

  -- A round of `unpark` after its assertions.
  abbrev after_wake : ℕ → Option State → Code (Unit {0})
  after_wake f e = match_option e skip λ s. Wake.unpark_loop g self f s

  round_of :
      (f : ℕ) (queued queue_locked locked : Bool) (s : State) (m : Memory State)
      → queued ≡ true
      → queue_locked ≡ true
      → locked ≡ false
      → solo
          (assert bad_word queued
            >> (assert bad_word queue_locked
                >> ((if locked then Wake.release_queue g self s else Wake.wake g self s)
                    >>= after_wake f)))
          m
        ≡ solo (Wake.wake g self s >>= after_wake f) m
  unfolding assert ◌>>=◌
  round_of f true true false s m q k l = refl
  round_of f false k l s m q k' l' = cc
  round_of f true false l s m q k' l' = cc
  round_of f true true true s m q k' l' = cc

  unpark_loop_lem :
      (f p : ℕ) (ws : List ℕ) (t : ℕ) (rest : List ℕ) (s : State) (m : Memory State)
      → m.word ≡ s
      → s.queued ≡ true
      → s.queue_locked ≡ true
      → s.locked ≡ false
      → s.remaining ≡ suc p
      → length ws ≤ g.fuel
      → Queue m.heap (suc p) ws t
      → length (t ∷ rest) ≤ g.fuel
      → Distinct (t ∷ rest)
      → Back (linked (suc p) ws t m).heap self (t ∷ rest)
      → solo (Wake.unpark_loop g self (suc f) s) m
        ≡ (woken_up s (suc p) t rest (linked (suc p) ws t m), inl tt)
  unfolding Wake.unpark_loop Wake.wake solo access ◌>>=◌ resume
  unpark_loop_lem f p ws t rest s m word q k l head le queue le' d back =
      let m' = linked (suc p) ws t m in
      round_of f s.queued s.queue_locked s.locked s m q k l
      ∙ solo-bind (Wake.wake g self s) (after_wake f) m
      ∙ ap (resume (after_wake f)) (
          ap (λ r. solo (get_and_link_queue g.fuel r >>= choose_waiters s) m) head
          ∙ solo-bind (get_and_link_queue g.fuel (suc p)) (choose_waiters s) m
          ∙ ap (resume (choose_waiters s)) (get_and_link_queue_lem g.fuel p ws t m le queue)
          ∙ choice_lem ((m'.heap t).flags == 0) s (suc p) t rest m'
              (word-linked (suc p) ws t m ∙ word) k le' d back)

  -- Alone with a queue in which only the last waiter knows the tail `t`, at a word that is not LOCKED and
  -- has QUEUE_LOCKED, and on fuel for the queue: where, once the queue is linked, the waiters `rest` follow
  -- the tail by their `prev` up to the head, without repetition, all of them waiting for this lock and not
  -- woken up yet, `unpark` links the queue and then does one of two things. If the tail is a reader or
  -- alone, it takes the whole queue off the word and wakes up every waiter of it. If the tail is a writer,
  -- it wakes up only that one, whose predecessor becomes the tail, and gives QUEUE_LOCKED back.
  pub unpark_wakes :
      (p : ℕ) (ws : List ℕ) (t : ℕ) (rest : List ℕ) (s : State) (m : Memory State)
      → m.word ≡ s
      → s.queued ≡ true
      → s.queue_locked ≡ true
      → s.locked ≡ false
      → s.remaining ≡ suc p
      → length ws ≤ g.fuel
      → Queue m.heap (suc p) ws t
      → length (t ∷ rest) ≤ g.fuel
      → Distinct (t ∷ rest)
      → Back (linked (suc p) ws t m).heap self (t ∷ rest)
      → solo (Wake.unpark g self s) m ≡ (woken_up s (suc p) t rest (linked (suc p) ws t m), inl tt)
  unfolding Wake.unpark
  unpark_wakes p ws t rest s m word q k l head le queue le' d back =
      let (f, e) = positive g.fuel (omega (arith, le')) in
      ap (λ x. solo (Wake.unpark_loop g self x s) m) e
      ∙ unpark_loop_lem f p ws t rest s m word q k l head le queue le' d back
