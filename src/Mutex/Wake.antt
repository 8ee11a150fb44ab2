-- ===== src/Mutex/Wake.antt =====
-- Waking waiters up keeps to the roles: who holds QUEUE_LOCKED gives it up at the end.
use usync.Prelude.{
  ℕ, zero, suc, true, false, ◌&&◌, not, Option, none, some, ◌≡◌, refl, if◌then◌else◌, match_option,
  ◌==◌, subst, arith,
}
use usync.Prog.{skip}
use usync.Prog.Safe.{Safe}
use usync.Shared.{Config}
use usync.Shared.Neutral.{
  Neutral, access-Neutral, bind-Neutral, expect-Neutral, assert-Neutral, option-Neutral,
}
use usync.Shared.Parker.Neutral.{unpark-Neutral}
use usync.Shared.Queue.Neutral.{get_and_link_queue-Neutral}
use usync.RwLock.State.{State}
use usync.RwLock.State.Bits.{minus_queue_locked}
use usync.RwLock.Wake.{
  Code, unpark_waiters_loop, unpark_waiters, wake_all, wake_one, wake, unpark_loop, unpark,
  release_queue, try_unpark_loop, try_unpark, link_queue_or_unpark_loop, link_queue_or_unpark,
}
use usync.Mutex.Roles.{Role, Knows, Shift, Ok, mutex}
use usync.Mutex.Rules.{fetch-Ok, cas_weak-Ok, Shift-Knows}
use usync.Shared.Protocol.{after, neutral, load-Keeps, quiet, if-Keeps, option-Keeps, assert-Keeps}

-- The role after QUEUE_LOCKED was given up.
abbrev pub released : Role → Role
released r = record r { queue = 0 }

abbrev pub EndsIn : {A : Type 0} → Role → A → Role → Type 0
EndsIn r a r' = r' ≡ r

module _ (g : Config) (self : ℕ) where
  unpark_waiters_loop-Neutral : (f tail : ℕ) → Neutral (unpark_waiters_loop g self f tail)
  unfolding unpark_waiters_loop
  unpark_waiters_loop-Neutral zero tail = Neutral.halt tt
  unpark_waiters_loop-Neutral (suc f) tail =
      access-Neutral _ _ _ (λ c m. (refl, refl))
        λ _. expect-Neutral _ _ λ on. assert-Neutral _ _ (
          access-Neutral _ _ _ (λ c m. (refl, refl))
            λ prev.
              bind-Neutral _ (unpark-Neutral g tail)
                λ _. option-Neutral prev (Neutral.ret tt) (unpark_waiters_loop-Neutral f))

  pub unpark_waiters-Neutral : (tail : ℕ) → Neutral (unpark_waiters g self tail)
  unfolding unpark_waiters
  unpark_waiters-Neutral tail = unpark_waiters_loop-Neutral g.fuel tail

  -- A round of `unpark` is over in the role without QUEUE_LOCKED, or goes on in the same role with
  -- a word that it has read.
  abbrev Round : Role → Option State → Role → Type 0
  Round r none r' = r' ≡ released r
  Round r (some s) r' = (r' ≡ r) × Knows r s

  module _ {r : Role} (has : r.queue ≡ 1) where
    wake_all-Ok :
        (s : State) (tail : ℕ) → s.locked ≡ false → Ok (Round r) (wake_all g self s tail) r
    unfolding wake_all
    wake_all-Ok s tail free =
        cas_weak-Ok _ _ _
          (λ k w. (
            released r,
            refl,
            ground (arith, k.holds, k.queue),
            neutral mutex _ (unpark_waiters-Neutral tail) λ _. Safe.ret refl,
          ))
          λ s k. Safe.ret (refl, k)

    wake_one-Ok : (head tail new_tail : ℕ) → Ok (Round r) (wake_one g self head tail new_tail) r
    unfolding wake_one
    wake_one-Ok head tail new_tail =
        quiet mutex _ _ _ (λ c m. (refl, refl))
          λ _. fetch-Ok _ _ λ s k w. (
            released r,
            refl,
            rw (minus_queue_locked s (ground (arith, k.queue))) (ground (arith, k.holds, k.queue)),
            quiet mutex _ _ _ (λ c m. (refl, refl))
                λ _. neutral mutex _ (unpark_waiters-Neutral tail) λ _. Safe.ret refl,
          )

    wake-Ok : (s : State) → s.locked ≡ false → Ok (Round r) (wake g self s) r
    unfolding wake
    wake-Ok s free =
        neutral mutex _ (get_and_link_queue-Neutral g.fuel s.remaining) λ (head, tail, found).
          quiet mutex _ _ _ (λ c m. (refl, refl))
            λ flags.
              if-Keeps mutex (flags == 0) (λ _. wake_all-Ok s tail free)
                λ _.
                  quiet mutex _ _ _ (λ c m. (refl, refl))
                    λ prev.
                      option-Keeps mutex prev (wake_all-Ok s tail free) (wake_one-Ok head tail)

    release-Ok : (s : State) → Ok (Round r) (release_queue g self s) r
    unfolding release_queue
    release-Ok s =
        cas_weak-Ok _ _ _
          (λ k w. (released r, refl, ground (arith, k.holds, k.queue, k.no_reader), Safe.ret refl))
          λ s k. Safe.ret (refl, k)

    Round-Ok :
        (s : State) → Ok (Round r) (if s.locked then release_queue g self s else wake g self s) r
    Round-Ok s = if-Keeps mutex s.locked (λ _. release-Ok s) (wake-Ok s)

  -- What follows a round.
  continue-Ok :
      {r : Role} (loop : State → Code (Unit {0})) (a : Option State) (r' : Role)
      → Round r a r'
      → ((s : State) → Knows r s → Ok (EndsIn (released r)) (loop s) r)
      → Ok (EndsIn (released r)) (match_option a skip loop) r'
  continue-Ok loop none r' e next = Safe.ret e
  continue-Ok loop (some s) r' (e, k) next = rw e (next s k)

  unpark_loop-Ok :
      (f : ℕ) {r : Role} (s : State)
      → r.queue ≡ 1
      → Knows r s
      → Ok (EndsIn (released r)) (unpark_loop g self f s) r
  unfolding unpark_loop
  unpark_loop-Ok zero s has k = Safe.halt tt
  unpark_loop-Ok (suc f) s has k = assert-Keeps mutex _ _ _ (ground (arith, k.queue, k.queued)) (
      assert-Keeps mutex _ _ _ (ground (arith, k.queue)) (
        after mutex _ (Round-Ok has s)
          λ a r' round. continue-Ok _ a r' round λ s' k'. unpark_loop-Ok f s' has k'))

  -- `unpark` gives QUEUE_LOCKED up, whatever the other threads do meanwhile.
  pub unpark-Ok :
      {r : Role} (s : State)
      → r.queue ≡ 1
      → Knows r s
      → Ok (EndsIn (released r)) (unpark g self s) r
  unfolding unpark
  unpark-Ok s = unpark_loop-Ok g.fuel s

  link_queue_or_unpark_loop-Ok :
      (f : ℕ) {r : Role} (s : State)
      → r.queue ≡ 1
      → Knows r s
      → Ok (EndsIn (released r)) (link_queue_or_unpark_loop g self f s) r
  unfolding link_queue_or_unpark_loop
  link_queue_or_unpark_loop-Ok zero s has k = Safe.halt tt
  link_queue_or_unpark_loop-Ok (suc f) {r} s has k =
      assert-Keeps mutex _ _ _ (ground (arith, k.queue, k.queued)) (
        assert-Keeps mutex _ _ _ (ground (arith, k.queue)) (
          if-Keeps mutex (not s.locked) (λ _. unpark-Ok s has k)
            λ _. neutral mutex _ (get_and_link_queue-Neutral g.fuel s.remaining) λ _.
              cas_weak-Ok _ _ _
                (λ k w.
                  (released r, refl, ground (arith, k.holds, k.queue, k.no_reader), Safe.ret refl))
                λ s' k'. link_queue_or_unpark_loop-Ok f s' has k'))

  pub link_queue_or_unpark-Ok :
      {r : Role} (s : State)
      → r.queue ≡ 1
      → Knows r s
      → Ok (EndsIn (released r)) (link_queue_or_unpark g self s) r
  unfolding link_queue_or_unpark
  link_queue_or_unpark-Ok s = link_queue_or_unpark_loop-Ok g.fuel s

  try_unpark_loop-Ok :
      (f : ℕ) {r : Role} (s : State) → r.queue ≡ 0 → Ok (EndsIn r) (try_unpark_loop g self f s) r
  unfolding try_unpark_loop
  try_unpark_loop-Ok zero s has = Safe.halt tt
  try_unpark_loop-Ok (suc f) {r} s has =
      if-Keeps mutex (not s.locked && s.queued && not s.queue_locked)
        (λ test.
          cas_weak-Ok _ _ _
            (λ k w.
              let sh : Shift r s (record r { queue = 1 }) (record s { queue_locked = true }) =
                ground (arith, k.holds, k.queue, k.no_reader) in
              let e : released (record r { queue = 1 }) ≡ r = ground arith in
              (
                record r { queue = 1 },
                refl,
                sh,
                subst
                    (λ x.
                      Ok (EndsIn x) (unpark g self (record s { queue_locked = true }))
                        (record r { queue = 1 }))
                    e (unpark-Ok _ refl (Shift-Knows k sh)),
              ))
            λ s' k'. try_unpark_loop-Ok f s' has)
        λ _. Safe.ret refl

  pub try_unpark-Ok : {r : Role} → r.queue ≡ 0 → Ok (EndsIn r) (try_unpark g self) r
  unfolding try_unpark
  try_unpark-Ok has = load-Keeps mutex _ λ s k. try_unpark_loop-Ok g.fuel s has
