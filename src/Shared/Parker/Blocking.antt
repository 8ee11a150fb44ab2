-- ===== src/Shared/Parker/Blocking.antt =====
-- Parking keeps to the roles.
use usync.Prelude.{
  Bool-cases, inl, inr, ℕ, zero, suc, ◌≡◌, ◌≢◌, refl, Bool, true, false, Option, none,
  if◌then◌else◌, arith,
}
use usync.Prog.{assert, broken_queue, ret, ◌>>=◌, ◌>>◌}
use usync.Prog.Safe.{Safe, bind-Safe}
use usync.Shared.{new_event, null, registered, Config}
use usync.Shared.Spin.{SpinWait, fresh, try_yield_now}
use usync.Shared.Parker.{
  is_notified, is_null, is_registered, event_wait, park_complete, park_slow, park_spin, park,
  register, unregister, swap_event,
}
use usync.Shared.Parker.Roles.{owner, Sees, Moves, Allowed, Ok}
use usync.Shared.Parker.Rules.{own, then-Ok, assert-Ok, one_pointer}
use usync.Shared.Parker.Sleeping.{
  awake, cleared_event, prepared, waiting, parking, woken, Parked, park_complete-Ok, event_wait-Ok,
}

module _ {S : Type 0} (g : Config) (me : ℕ) where
  notified-Ok :
      (timeout : Option ℕ)
      → Ok {S = S} me
          (Parked timeout)
          (swap_event g me (λ p. p) >>= λ e. park_complete g me e)
          (owner (woken 2))
  notified-Ok timeout =
      own me (woken 2) (λ x. record x { parker = x.parker }) (λ x. x.parker) _
        λ x c w good. (
          woken 1,
          (λ w' good'. ground arith),
          park_complete-Ok g me timeout x.parker (ground (arith, good.notified)),
        )

  -- Taking the event back after a timeout.
  withdraw-Ok :
      (timeout : Option ℕ)
      → timeout ≢ none
      → Ok {S = S} me
          (Parked timeout)
          (unregister g me >>= λ event.
            if is_registered event
            then ret false
            else event_wait g me g.fuel none none >>= λ woken.
                assert broken_queue woken
                >> (swap_event g me (λ p. p) >>= λ e. park_complete g me e))
          (owner (parking 4))
  unfolding unregister
  withdraw-Ok timeout some_limit =
      own me (parking 4)
        (λ x. record x { parker = if is_registered x.parker then null else x.parker })
        (λ x. x.parker) _
        λ x c w good. elim (Bool-cases (is_registered x.parker)) [
          | inl still ↦ (
            awake,
            (λ w' good'. rw still (ground (arith, still, one_pointer x.parker))),
            rw still (Safe.ret (refl, λ h. absurd (some_limit h))),
          )
          | inr taken ↦ (
            waiting 3,
            (λ w' good'. rw taken (ground (arith, taken))),
            rw taken (
                bind-Safe (Sees me) (Moves me) Allowed _ (event_wait-Ok g me g.fuel none none)
                  λ woken r (e, sure).
                    rw (e, sure refl) (assert-Ok me true _ refl (notified-Ok timeout))),
          )
        ]

  waited-Ok :
      (timeout : Option ℕ) (was_set : Bool)
      → (timeout ≡ none → was_set ≡ true)
      → Ok {S = S} me
          (Parked timeout)
          (if was_set
            then (swap_event g me (λ p. p) >>= λ e. park_complete g me e)
            else unregister g me >>= λ event.
                if is_registered event
                then ret false
                else event_wait g me g.fuel none none >>= λ woken.
                    assert broken_queue woken
                    >> (swap_event g me (λ p. p) >>= λ e. park_complete g me e))
          (owner (if was_set then woken 2 else parking 4))
  waited-Ok timeout true sure = notified-Ok timeout
  waited-Ok timeout false sure = withdraw-Ok timeout λ h. ground (arith, sure h)

  park_slow-Ok :
      (timeout : Option ℕ) → Ok {S = S} me (Parked timeout) (park_slow g me timeout) (owner awake)
  unfolding park_slow register unregister
  park_slow-Ok timeout =
      own me awake (λ x. record x { event = record new_event { token = x.event.token } }) (λ _. tt)
        _
        λ x c w good. (
          cleared_event,
          (λ w' good'. ground arith),
          own me cleared_event (λ x. record x { event = record x.event { has_thread = true } })
              (λ _. tt) _
              λ x c w good. (
                prepared,
                (λ w' good'. ground arith),
                own me prepared
                    (λ x. record x { parker = if is_null x.parker then registered else x.parker })
                    (λ x. x.parker) _
                    λ x c w good. elim (Bool-cases (is_null x.parker)) [
                      | inl free ↦ (
                        waiting 3,
                        (λ w' good'. rw free (ground (arith, free, one_pointer x.parker))),
                        rw free (
                            bind-Safe (Sees me) (Moves me) Allowed _
                              (event_wait-Ok g me g.fuel timeout none)
                              λ was_set r (e, sure). rw e (waited-Ok timeout was_set sure)),
                      )
                      | inr other ↦ (
                        woken 1,
                        (λ w' good'. rw other (ground (arith, other, one_pointer x.parker))),
                        rw other (
                            park_complete-Ok g me timeout _
                              (ground (arith, other, one_pointer x.parker, good.registered))),
                      )
                    ],
              ),
        )

  park_spin-Ok :
      (f : ℕ) (timeout : Option ℕ) (spin : SpinWait)
      → Ok {S = S} me (Parked timeout) (park_spin g me f timeout spin) (owner awake)
  unfolding park_spin
  park_spin-Ok zero timeout spin = Safe.halt tt
  park_spin-Ok (suc f) timeout spin = elim (Bool-cases (try_yield_now g.multi_core spin).1) [
    | inr stop ↦ rw stop (park_slow-Ok timeout)
    | inl more ↦ rw more (
        own me awake (λ x. record x { parker = x.parker }) (λ x. x.parker) _
          λ x c w good. elim (Bool-cases (is_notified x.parker)) [
            | inl found ↦ (
              woken 1,
              (λ w' good'. ground (arith, found)),
              then-Ok me _ _ _ found (park_complete-Ok g me timeout x.parker found),
            )
            | inr not_yet ↦ (
              awake,
              (λ w' good'. ground (arith, not_yet)),
              rw not_yet (park_spin-Ok f timeout (try_yield_now g.multi_core spin).0),
            )
          ])
  ]

  pub park-Ok :
      (timeout : Option ℕ) → Ok {S = S} me (Parked timeout) (park g me timeout) (owner awake)
  unfolding park
  park-Ok timeout = park_spin-Ok 101 timeout fresh
