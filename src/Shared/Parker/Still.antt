-- ===== src/Shared/Parker/Still.antt =====
-- Parking and unparking leave the state word and the links of the queue alone.
use usync.Prelude.{arith, ℕ, zero, suc, Option, none, refl}
use usync.Shared.{EventPtr, Config}
use usync.Shared.Still.{
  Still, ret, access-Still, last-Still, halt, bind-Still, assert-Still, if-Still, option-Still,
}
use usync.Shared.Spin.{SpinWait, fresh}
use usync.Shared.Parker.{
  thread_park, event_wait, event_set, park_complete, park_slow, park_spin, park, unpark,
}

module _ {S : Type 0} (g : Config) (me : ℕ) where
  thread_park-Still : (f : ℕ) → Still (thread_park {S = S} g me f)
  unfolding thread_park
  thread_park-Still zero = halt tt
  thread_park-Still (suc f) =
      access-Still _ _ _ (λ c m. (refl, refl, λ p. ground arith))
        λ r. if-Still r (ret tt) (thread_park-Still f)

  event_wait-Still :
      (f : ℕ) (timeout started : Option ℕ) → Still (event_wait {S = S} g me f timeout started)
  unfolding event_wait
  event_wait-Still zero timeout started = halt tt
  event_wait-Still (suc f) timeout started =
      access-Still _ _ _ (λ c m. (refl, refl, λ p. ground arith))
        λ _. if-Still _ (ret _) (
          option-Still timeout
            (bind-Still _ (thread_park-Still f) λ _. event_wait-Still f none started)
            λ limit.
              access-Still _ _ _ (λ c m. (refl, refl, λ p. ground arith))
                λ _.
                  option-Still _ (ret _)
                    λ until. bind-Still _ (thread_park-Still f) λ _. event_wait-Still f _ _)

  event_set-Still : Still (event_set {S = S} g me)
  unfolding event_set
  event_set-Still =
      access-Still _ _ _ (λ c m. (refl, refl, λ p. ground arith))
        λ _.
          access-Still _ _ _ (λ c m. (refl, refl, λ p. ground arith))
            λ _. assert-Still _ _ (
              access-Still _ _ _ (λ c m. (refl, refl, λ p. ground arith))
                λ _. last-Still _ _ λ c m. (refl, refl, λ p. ground arith))

  park_complete-Still : (e : EventPtr) → Still (park_complete {S = S} g me e)
  unfolding park_complete
  park_complete-Still e =
      assert-Still _ _ (access-Still _ _ _ (λ c m. (refl, refl, λ p. ground arith)) λ _. ret _)

  park_slow-Still : (timeout : Option ℕ) → Still (park_slow {S = S} g me timeout)
  unfolding park_slow
  park_slow-Still timeout =
      access-Still _ _ _ (λ c m. (refl, refl, λ p. ground arith))
        λ _.
          access-Still _ _ _ (λ c m. (refl, refl, λ p. ground arith))
            λ _.
              access-Still _ _ _ (λ c m. (refl, refl, λ p. ground arith))
                λ _. if-Still _ (park_complete-Still _) (
                  bind-Still _ (event_wait-Still g.fuel timeout none) λ was_set.
                    if-Still was_set
                      (access-Still _ _ _ (λ c m. (refl, refl, λ p. ground arith))
                        λ _. park_complete-Still _)
                      (access-Still _ _ _ (λ c m. (refl, refl, λ p. ground arith))
                        λ _. if-Still _ (ret _) (
                          bind-Still _ (event_wait-Still g.fuel none none) λ woken.
                            assert-Still _ _ (
                              access-Still _ _ _ (λ c m. (refl, refl, λ p. ground arith))
                                λ _. park_complete-Still _))))

  park_spin-Still :
      (f : ℕ) (timeout : Option ℕ) (spin : SpinWait) → Still (park_spin {S = S} g me f timeout spin)
  unfolding park_spin
  park_spin-Still zero timeout spin = halt tt
  park_spin-Still (suc f) timeout spin = if-Still _ (park_slow-Still timeout) (
      access-Still _ _ _ (λ c m. (refl, refl, λ p. ground arith))
        λ _. if-Still _ (park_complete-Still _) (park_spin-Still f timeout _))

  pub park-Still : (timeout : Option ℕ) → Still (park {S = S} g me timeout)
  unfolding park
  park-Still timeout = park_spin-Still 101 timeout fresh

  pub unpark-Still : Still (unpark {S = S} g me)
  unfolding unpark
  unpark-Still =
      access-Still _ _ _ (λ c m. (refl, refl, λ p. ground arith))
        λ _. if-Still _ (ret _) (assert-Still _ _ event_set-Still)
