-- ===== src/Barrier/Wait.antt =====
-- The code of the barrier keeps to the roles.
use usync.Prelude.{
  ℕ, zero, suc, ◌-◌, Bool, true, false, ◌&&◌, not, none, ◌≡◌, refl, ◌==◌, if◌then◌else◌,
  match_option, bit, length, arith,
}
use usync.Prog.{Prog, broken_queue, not_completed, assert, expect, ret, ◌>>=◌, ◌>>◌}
use usync.Prog.Safe.{Safe}
use usync.Shared.{Memory, Counts, Config, load, cas_weak}
use usync.Shared.Still.{Still-Neutral}
use usync.Barrier.Still.{wake_loop-Still}
use usync.Shared.Parker.{park}
use usync.Shared.Parker.Neutral.{park-Neutral}
use usync.Shared.Queue.Neutral.{get_and_link_queue-Neutral}
use usync.Shared.Protocol.{
  after, neutral, load-Step, quiet, if-Keeps, assert-Keeps, may-Keep, fetch-Keeps, cas_weak-Keeps,
}
use usync.Barrier.{
  Word, same, counting, waiting, completed, is_completed, is_queued, is_queue_locked, without_lock,
  complete, link_queue_or_complete, prepare, queued, wait_loop, wait_slow, wait,
}
use usync.Barrier.Roles.{Role, Knows, Step, Step-refl, Ok, barrier}

abbrev pub fresh : Role
fresh = record { queue = 0; leads = 0; saw = 0 }

abbrev pub seen : Role
seen = record fresh { saw = 1 }

abbrev pub leader : Role
leader = record seen { leads = 1 }

abbrev pub queue_owner : Role
queue_owner = record fresh { queue = 1 }

-- The role of a thread that has just read a word.
abbrev pub reader : Word → Role
reader w = if is_completed w then seen else fresh

-- After `wait`, and after the attempt to complete the barrier.
abbrev pub Returned : Bool → Role → Type 0
Returned b r = r ≡ (if b then leader else seen)

abbrev pub Attempted : Bool → Role → Type 0
Attempted b r = r ≡ (if b then leader else fresh)

read-Step :
    (r : Role) (w : Word) (c : Counts) → r.leads ≡ 0 → r.queue ≡ 0 → Step r w c (reader w) w c
read-Step r w c l q = record {
  queue = ground arith;
  leads = ground arith;
  leader = ground arith;
  saw = ground arith;
  final = omega arith;
  passed = λ other. absurd (other refl);
}

module _ (g : Config) where
  owner_word :
      (w : Word)
      → Knows queue_owner w
      → (is_queued w ≡ true) × (is_queue_locked w ≡ true) × (is_completed w ≡ false)
  owner_word (counting n) k = absurd (omega (arith, k.queue))
  owner_word (waiting h b) k = ground (arith, k.queue)

  unlock_Step :
      (w : Word) (c : Counts) → Knows queue_owner w → Step queue_owner w c fresh (without_lock w) c
  unlock_Step (counting n) c k = absurd (omega (arith, k.queue))
  unlock_Step (waiting h b) c k = ground (arith, k.queue)

  -- Who completes the barrier leads.
  complete-Ok : Ok Attempted (complete g) queue_owner
  unfolding complete
  complete-Ok = fetch-Keeps barrier _ _ λ w c k f.
      let (q, l, o) = owner_word w k in
      (
        leader,
        ground (arith, l, o, k.queue),
        assert-Keeps barrier _ _ _ q (
            assert-Keeps barrier _ _ _ l
              (neutral barrier _ (Still-Neutral (wake_loop-Still g g.fuel _)) λ _. Safe.ret refl)),
      )

  link_queue_or_complete-Ok :
      (n : ℕ) (w : Word)
      → Knows queue_owner w
      → Ok Attempted (link_queue_or_complete g n w) queue_owner
  unfolding link_queue_or_complete
  link_queue_or_complete-Ok zero w k = Safe.halt tt
  link_queue_or_complete-Ok (suc n) w k =
      let (q, l, o) = owner_word w k in
      assert-Keeps barrier _ _ _ q (
        assert-Keeps barrier _ _ _ l (
          neutral barrier _ (get_and_link_queue-Neutral g.fuel _) λ (_, _, found).
            quiet barrier _ _ _ (λ c m. (refl, refl))
              λ counter.
                quiet barrier _ _ _ (λ c m. (refl, refl))
                  λ _.
                    if-Keeps barrier (counter - length found == 0) (λ _. complete-Ok)
                      λ _.
                        cas_weak-Keeps barrier _ _ _
                          (λ c k f. (fresh, unlock_Step w c k, Safe.ret {a = false} refl))
                          λ s c k f. (
                            queue_owner,
                            Step-refl queue_owner s c k f,
                            link_queue_or_complete-Ok n s k,
                          )))

  module _ (me : ℕ) where
    -- Who leads returns; any other thread blocks until the word is completed.
    Attempted-Ok :
        (led : Bool) (r : Role)
        → Attempted led r
        → Ok Returned
            (if led
              then ret true
              else park g me none >>= λ woken.
                  assert broken_queue woken
                  >> (load >>= λ w'. assert not_completed (is_completed w') >> ret false))
            r
    Attempted-Ok true r e = Safe.ret e
    Attempted-Ok false r e = rw e (
        neutral barrier _ (park-Neutral g me none) λ woken. may-Keep barrier _ _ _ tt λ _.
          load-Step barrier _ λ w c k f. (
            reader w,
            read-Step fresh w c refl refl,
            may-Keep barrier _ (is_completed w) _ tt λ h. Safe.ret {a = false} (ground (arith, h)),
          ))

    -- The role of a thread whose waiter has taken the place of `w`.
    abbrev after_push : Word → Role
    after_push w = if is_queued w && not (is_queue_locked w) then queue_owner else fresh

    queued-Ok : (w : Word) → Ok Returned (queued g me w) (after_push w)
    unfolding queued ◌>>=◌
    queued-Ok (counting n) = Attempted-Ok false fresh refl
    queued-Ok (waiting h true) = Attempted-Ok false fresh refl
    queued-Ok (waiting h false) =
        after barrier _
          (link_queue_or_complete-Ok g.fuel (waiting me true)
            (record { queue = omega arith; saw = omega arith }))
          λ led r e. Attempted-Ok led r e

    push_Step :
        (w : Word) (c : Counts) (h : ℕ) (b : Bool)
        → is_completed w ≡ false
        → bit b ≡ bit (is_queued w)
        → Step fresh w c (after_push w) (waiting h b) c
    push_Step (counting n) c h b todo e = ground (arith, todo)
    push_Step (waiting p k) c h b todo e = ground (arith, todo)

    -- Putting the waiter in front of the queue, after its cells are written.
    push-Ok :
        (w v : Word) (b : Bool) (f : Word → Prog (Memory Word) Bool)
        → is_completed w ≡ false
        → bit b ≡ bit (is_queued w)
        → ((s : Word) → Ok Returned (f s) (reader s))
        → Ok Returned
            (cas_weak same w (waiting me b) >>= λ e. match_option e (queued g me w) f)
            fresh
    push-Ok w v b f todo e next =
        cas_weak-Keeps barrier _ _ _
          (λ c k f'. (after_push w, push_Step w c me b todo e, queued-Ok w))
          λ s c k f'. (reader s, read-Step fresh s c refl refl, next s)

    -- The count is not yet used up when the first waiter takes it over.
    abbrev Prepared : Word → Word → Role → Type 0
    Prepared w v r = (r ≡ fresh) × (b : Bool) × (v ≡ waiting me b) × (bit b ≡ bit (is_queued w))

    prepare-Ok : (w : Word) → is_completed w ≡ false → Ok (Prepared w) (prepare g me w) fresh
    unfolding prepare expect ◌>>=◌
    prepare-Ok (counting zero) h = absurd (ground (arith, h))
    prepare-Ok (counting (suc n)) h =
        quiet barrier _ _ _ (λ c m. (refl, refl)) λ _. Safe.ret (refl, false, refl, refl)
    prepare-Ok (waiting p k) h =
        quiet barrier _ _ _ (λ c m. (refl, refl)) λ _. Safe.ret (refl, true, refl, refl)

    last_Step :
        (w : Word) (c : Counts)
        → is_completed w ≡ false
        → same w (counting 1) ≡ true
        → Step fresh w c leader completed c
    last_Step (counting n) c todo one = ground (arith, todo)
    last_Step (waiting p k) c todo one = ground (arith, one)

    wait_loop-Ok : (n : ℕ) (w : Word) → Ok Returned (wait_loop g me n w) (reader w)
    unfolding wait_loop prepare
    wait_loop-Ok zero w = Safe.halt tt
    wait_loop-Ok (suc n) w =
        if-Keeps barrier (is_completed w) (λ h. Safe.ret {a = false} (ground (arith, h)))
          λ todo.
            let e : reader w ≡ fresh = ground (arith, todo) in
            rw e (
              if-Keeps barrier (same w (counting 1))
                (λ one.
                  cas_weak-Keeps barrier _ _ _
                    (λ c k f. (leader, last_Step w c todo one, Safe.ret {a = true} refl))
                    λ s c k f. (reader s, read-Step fresh s c refl refl, wait_loop-Ok n s))
                λ more. after barrier _ (prepare-Ok w todo) λ v r (e, b, ev, eb).
                  rw (e, ev) (push-Ok w v b (wait_loop g me n) todo eb (wait_loop-Ok n)))

    -- Whatever the other threads do meanwhile within the protocol of the barrier, a `wait` that
    -- returns has seen the word COMPLETED, and has returned true only to the one that completed it.
    pub wait-Ok : (r : Role) → r.leads ≡ 0 → r.queue ≡ 0 → Ok Returned (wait g me) r
    unfolding wait wait_slow
    wait-Ok r l q = load-Step barrier _ λ w c k f. (
      reader w,
      read-Step r w c l q,
      if-Keeps barrier (is_completed w) (λ h. Safe.ret {a = false} (ground (arith, h)))
          λ h. quiet barrier _ _ _ (λ c m. (refl, refl)) λ _. wait_loop-Ok g.fuel w,
    )
