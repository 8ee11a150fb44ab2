-- ===== src/Shared/Parker/Sleeping.antt =====
-- Waiting for the event of a parker keeps to the roles.
use usync.Prelude.{
  ◌||◌, Bool-cases, inl, inr, ℕ, zero, suc, ◌≡◌, ◌<◌, refl, Bool, true, false, Option, none, some,
  if◌then◌else◌, arith,
}
use usync.Prog.{◌>>=◌}
use usync.Prog.Safe.{Safe, bind-Safe}
use usync.Shared.{EventPtr, null, Config}
use usync.Shared.Parker.{is_notified, event_wait, park_complete, thread_park}
use usync.Shared.Parker.Roles.{Owner, Role, owner, Sees, Moves, Allowed, Ok}
use usync.Shared.Parker.Rules.{own, own_choice, own_look, option-Ok, then-Ok, assert-Ok}

-- The owner before it has registered its event, and after it has taken it back.
abbrev pub awake : Owner
awake = record { waits = 0; cleared = 0; entered = 0; knows = 0; parks = 0; passed = 0; left = 4 }

abbrev pub cleared_event : Owner
cleared_event = record awake { cleared = 1; left = 3 }

abbrev pub prepared : Owner
prepared = record cleared_event { entered = 1; left = 2 }

abbrev pub waiting : ℕ → Owner
waiting n = record awake { waits = 1; left = n }

-- It has found the event not set.
abbrev pub parking : ℕ → Owner
parking n = record (waiting n) { parks = 1 }

abbrev pub woken : ℕ → Owner
woken n = record awake { knows = 1; left = n }

abbrev pub passed : Owner
passed = record awake { passed = 1; left = 0 }

-- What is known after parking, with and without a timeout.
abbrev pub Parked : Option ℕ → Bool → Role → Type 0
Parked timeout b r = (r ≡ owner (if b then passed else awake)) × (timeout ≡ none → b ≡ true)

-- What is known after waiting for the event.
abbrev pub Waited : Option ℕ → Bool → Role → Type 0
Waited timeout b r = (r ≡ owner (if b then woken 2 else parking 4)) × (timeout ≡ none → b ≡ true)

module _ {S : Type 0} (g : Config) (me : ℕ) where
  pub park_complete-Ok :
      (timeout : Option ℕ) (e : EventPtr)
      → is_notified e ≡ true
      → Ok {S = S} me (Parked timeout) (park_complete g me e) (owner (woken 1))
  unfolding park_complete
  park_complete-Ok timeout e known = assert-Ok me (is_notified e) _ known (
      own me (woken 1) (λ x. record x { parker = null }) (λ _. tt) _
        λ x c w good. (passed, (λ w' good'. ground arith), Safe.ret (refl, λ _. refl)))

  -- It blocks no longer than until there is a token.
  thread_park-Ok :
      (f n : ℕ)
      → 3 < n
      → Ok {S = S} me (λ _ r. r ≡ owner (waiting 3)) (thread_park g me f) (owner (parking n))
  unfolding thread_park
  thread_park-Ok zero n lt = Safe.halt tt
  thread_park-Ok (suc f) n lt =
      own_choice me (parking n) (λ x. record x { event = record x.event { token = false } })
        (λ b x. x.event.token || b) _
        λ b x c. elim (Bool-cases (x.event.token || b)) [
          | inl returns ↦
              (waiting 3, (λ w good. ground (arith, lt)), then-Ok me _ _ _ returns (Safe.ret refl))
          | inr blocks ↦
              (parking n, (λ w good. ground (arith, blocks)), rw blocks (thread_park-Ok f n lt))
        ]

  -- Parking in front of another round.
  again-Ok :
      (f n : ℕ) (timeout started : Option ℕ) (Q : Bool → Role → Type 0)
      → 3 < n
      → Ok {S = S} me Q (event_wait g me f timeout started) (owner (waiting 3))
      → Ok {S = S} me Q
          (thread_park g me f >>= λ _. event_wait g me f timeout started)
          (owner (parking n))
  again-Ok f n timeout started Q lt ok =
      bind-Safe (Sees me) (Moves me) Allowed _ (thread_park-Ok f n lt) λ _ r e. rw e ok

  pub event_wait-Ok :
      (f : ℕ) (timeout started : Option ℕ)
      → Ok {S = S} me (Waited timeout) (event_wait g me f timeout started) (owner (waiting 3))
  unfolding event_wait
  event_wait-Ok zero timeout started = Safe.halt tt
  event_wait-Ok (suc f) none started =
      own_look me (waiting 3) (λ m. (m.heap me).event.is_set) _
        λ m w good. elim (Bool-cases (m.heap me).event.is_set) [
          | inl set ↦
              (woken 2, (λ w' good'. ground (arith, set)), rw set (Safe.ret (refl, λ _. refl)))
          | inr unset ↦ (
            parking 5,
            (λ w' good'. ground (arith, unset)),
            rw unset (again-Ok f 5 none started _ (omega arith) (event_wait-Ok f none started)),
          )
        ]
  event_wait-Ok (suc f) (some limit) started =
      own_look me (waiting 3) (λ m. (m.heap me).event.is_set) _
        λ m w good. elim (Bool-cases (m.heap me).event.is_set) [
          | inl set ↦
              (woken 2, (λ w' good'. ground (arith, set)), rw set (Safe.ret (refl, λ h. refl)))
          | inr unset ↦ (
            parking 5,
            (λ w' good'. ground (arith, unset)),
            rw unset (
                own_look me (parking 5) (λ m. m.clock) _
                  λ m w good. (
                    parking 4,
                    (λ w' good'. ground arith),
                    option-Ok me _ (Safe.ret (refl, λ h. cc)) λ until.
                        again-Ok f 4 (some limit) _ _ (omega arith)
                          (event_wait-Ok f (some limit) _),
                  )),
          )
        ]
