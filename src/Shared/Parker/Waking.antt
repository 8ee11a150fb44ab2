-- ===== src/Shared/Parker/Waking.antt =====
-- Unparking keeps to the roles.
use usync.Prelude.{Bool-cases, inl, inr, ℕ, ◌≡◌, refl, true, false, not, arith}
use usync.Prog.Safe.{Safe}
use usync.Shared.{notified, Config}
use usync.Shared.Parker.{is_notified, is_null, event_set, unpark}
use usync.Shared.Parker.Roles.{Waker, waker, Ok}
use usync.Shared.Parker.Rules.{wakes, wakes_look, last_wakes, then-Ok, assert-Ok, one_pointer}

-- The thread that unparks.
abbrev pub quiet_waker : Waker
quiet_waker = record { begun = 0; took = 0; owes = 0; holds = 0; gave = 0; over = 0 }

abbrev pub beginning : Waker
beginning = record quiet_waker { begun = 1 }

abbrev took : Waker
took = record beginning { took = 1 }

abbrev owing : ℕ → Waker
owing n = record took { owes = 1; holds = n }

abbrev pub gave : Waker
gave = record took { gave = 1 }

abbrev pub over : Waker
over = record gave { over = 1 }

module _ {S : Type 0} (g : Config) (me : ℕ) where
  event_set-Ok : Ok {S = S} me (λ _ r. r ≡ waker gave) (event_set g me) (waker (owing 1))
  unfolding event_set
  event_set-Ok =
      wakes_look me (owing 1) (λ x. x.event.has_thread) _
        λ x c o good.
          wakes me (owing 1) (λ x. record x { event = record x.event { has_thread = false } })
            (λ _. tt) _
            λ y c' o' good'. (
              owing 0,
              (λ o'' good''. ground arith),
              assert-Ok me x.event.has_thread _ (ground (arith, good.holds)) (
                  wakes me (owing 0) (λ x. record x { event = record x.event { is_set = true } })
                    (λ _. tt) _
                    λ y c' o' good'. (
                      took,
                      (λ o'' good''. ground arith),
                      last_wakes me took (λ x. record x { event = record x.event { token = true } })
                          (λ _. tt) λ y c o good. (gave, (λ o' good'. ground arith), refl),
                    )),
            )

  pub unpark-Ok : Ok {S = S} me (λ _ r. r ≡ waker gave) (unpark g me) (waker beginning)
  unfolding unpark
  unpark-Ok =
      wakes me beginning (λ x. record x { parker = notified }) (λ x. x.parker) _
        λ x c o good. elim (Bool-cases (is_null x.parker)) [
          | inl none_yet ↦ (
            gave,
            (λ o' good'. ground (arith, none_yet, one_pointer x.parker)),
            then-Ok me _ _ _ none_yet (Safe.ret refl),
          )
          | inr waits ↦ (
            owing 1,
            (λ o' good'. ground (arith, waits, one_pointer x.parker)),
            rw waits (
                assert-Ok me (not (is_notified x.parker)) _ (ground (arith, good.swapped))
                  event_set-Ok),
          )
        ]
