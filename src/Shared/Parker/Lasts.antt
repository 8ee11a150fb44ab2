-- ===== src/Shared/Parker/Lasts.antt =====
-- How long parking lasts on its fuel.
use usync.Prelude.{
  refl, leb, ◌<◌, ℕ, zero, suc, ◌+◌, ◌≤◌, Bool, true, false, ◌≡◌, Bool-cases, inl, inr, Option,
  none, some, match_option, arith,
}
use usync.Prog.{Prog}
use usync.Prog.Lasts.{
  last-Lasts, Lasts, ret-Lasts, bind-Lasts, access-Lasts, uncounted-Lasts, assert-Lasts, if-Lasts,
}
use usync.Shared.{EventPtr, Config}
use usync.Shared.Spin.{SpinWait, fresh, try_yield_now}
use usync.Shared.Parker.{
  event_set, unpark, event_wait, park_complete, park_slow, park_spin, park, thread_park, register,
  unregister,
}

option-Lasts :
    {M A B : Type 0} (k : ℕ) (o : Option B) (p : Prog M A) (f : B → Prog M A)
    → Lasts k p
    → ((b : B) → Lasts k (f b))
    → Lasts k (match_option o p f)
option-Lasts k none p f hp hf = hp
option-Lasts k (some b) p f hp hf = hf b

-- A yield is counted.
yield_counts :
    (multi_core : Bool) (s : SpinWait)
    → (try_yield_now multi_core s).1 ≡ true
    → (s.counter < 100) × ((try_yield_now multi_core s).0.counter ≡ s.counter + 1)
unfolding try_yield_now
yield_counts true s h = elim (Bool-cases (leb 100 s.counter)) [
  | inl full ↦ absurd (ground (arith, h, full))
  | inr more ↦ (ground (arith, more), rw more refl)
]
yield_counts false s h = absurd (ground (arith, h))

module _ (S : Type 0) (g : Config) (me : ℕ) where
  thread_park-Lasts : (f : ℕ) → Lasts f (thread_park {S = S} g me f)
  unfolding thread_park
  thread_park-Lasts zero = tt
  thread_park-Lasts (suc f) =
      access-Lasts f _ _ _ λ r. if-Lasts f r _ _ (ret-Lasts _ f tt) (thread_park-Lasts f)

  -- Each round of the wait makes an access.
  event_wait-Lasts :
      (f : ℕ) (timeout started : Option ℕ) → Lasts f (event_wait {S = S} g me f timeout started)
  unfolding event_wait
  event_wait-Lasts zero timeout started = tt
  event_wait-Lasts (suc f) timeout started = access-Lasts f _ _ _ λ is_set.
      if-Lasts f is_set _ _ (ret-Lasts _ f true) (
        option-Lasts f timeout _ _
          (bind-Lasts f _ _ (thread_park-Lasts f) λ _. event_wait-Lasts f none started)
          λ limit. uncounted-Lasts f _ _ _ λ now.
            option-Lasts f _ _ _ (ret-Lasts _ f false)
              λ until. bind-Lasts f _ _ (thread_park-Lasts f) λ _. event_wait-Lasts f _ _)

  park_complete-Lasts : (k : ℕ) (e : EventPtr) → Lasts k (park_complete {S = S} g me e)
  unfolding park_complete
  park_complete-Lasts k e = assert-Lasts k _ _ (uncounted-Lasts k _ _ _ λ _. ret-Lasts _ k true)

  park_slow-Lasts : (timeout : Option ℕ) → Lasts g.fuel (park_slow {S = S} g me timeout)
  unfolding park_slow register unregister
  park_slow-Lasts timeout = uncounted-Lasts g.fuel _ _ _ λ _. uncounted-Lasts g.fuel _ _ _ λ _.
      uncounted-Lasts g.fuel _ _ _ λ event.
        if-Lasts g.fuel _ _ _ (park_complete-Lasts g.fuel event) (
          bind-Lasts g.fuel _ _ (event_wait-Lasts g.fuel timeout none) λ was_set.
            if-Lasts g.fuel was_set _ _
              (uncounted-Lasts g.fuel _ _ _ λ event. park_complete-Lasts g.fuel event)
              (uncounted-Lasts g.fuel _ _ _ λ event.
                if-Lasts g.fuel _ _ _ (ret-Lasts _ g.fuel false) (
                  bind-Lasts g.fuel _ _ (event_wait-Lasts g.fuel none none) λ woken.
                    assert-Lasts g.fuel woken _
                      (uncounted-Lasts g.fuel _ _ _ λ event. park_complete-Lasts g.fuel event))))

  -- The spinning ends before its own bound does.
  park_spin-Lasts :
      (f : ℕ) (timeout : Option ℕ) (spin : SpinWait)
      → 101 ≤ f + spin.counter
      → spin.counter ≤ 100
      → Lasts g.fuel (park_spin {S = S} g me f timeout spin)
  unfolding park_spin
  park_spin-Lasts zero timeout spin le most = absurd (omega arith)
  park_spin-Lasts (suc f) timeout spin le most =
      elim (Bool-cases (try_yield_now g.multi_core spin).1) [
        | inr stop ↦ rw stop (park_slow-Lasts timeout)
        | inl more ↦
            let (below, counted) = yield_counts g.multi_core spin more in
            rw more (
              uncounted-Lasts g.fuel _ _ _ λ event.
                if-Lasts g.fuel _ _ _ (park_complete-Lasts g.fuel event) (
                  park_spin-Lasts f timeout (try_yield_now g.multi_core spin).0
                    (omega (arith, counted)) (omega (arith, counted))))
      ]

  pub park-Lasts : (timeout : Option ℕ) → Lasts g.fuel (park {S = S} g me timeout)
  unfolding park
  park-Lasts timeout = park_spin-Lasts 101 timeout fresh (omega arith) (omega arith)

  event_set-Lasts : (k : ℕ) → Lasts k (event_set {S = S} g me)
  unfolding event_set
  event_set-Lasts k = uncounted-Lasts k _ _ _ λ thread.
      uncounted-Lasts k _ _ _
        λ _. assert-Lasts k thread _ (uncounted-Lasts k _ _ _ λ _. last-Lasts k _ _)

  -- Unparking has no loop.
  pub unpark-Lasts : (k : ℕ) → Lasts k (unpark {S = S} g me)
  unfolding unpark
  unpark-Lasts k =
      uncounted-Lasts k _ _ _
        λ event. if-Lasts k _ _ _ (ret-Lasts _ k tt) (assert-Lasts k _ _ (event_set-Lasts k))
