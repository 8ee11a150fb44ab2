-- ===== src/Shared/Parker/Threads.antt =====
-- The threads of Shared/Parker/Client keep to the roles.
use usync.Prelude.{ℕ, zero, suc, ◌≡◌, refl, Bool, true, Option, List, ◌⊎◌, inl, inr, arith}
use usync.Prog.{run}
use usync.Prog.Safe.{Safe, access-Safe, bind-Safe, Sound, run-Sound}
use usync.Prog.Lasts.{Lasts, uncounted-Lasts, bind-Lasts, ret-Lasts}
use usync.Shared.Parker.{unpark, park}
use usync.Shared.{null, Memory, no_counts, Config}
use usync.Shared.Parker.Roles.{
  Role, owner, waker, bystander, Sees, Moves, Allowed, Ok, Inv, Inv-Sees, Moves-Inv,
}
use usync.Shared.Parker.Sleeping.{awake, Parked}
use usync.Shared.Parker.Blocking.{park-Ok}
use usync.Shared.Parker.Waking.{quiet_waker, beginning, over, unpark-Ok}
use usync.Shared.Parker.Lasts.{park-Lasts, unpark-Lasts}
use usync.Shared.Parker.Client.{parker, unparker, ticker, threads, start}

-- How the three threads end.
abbrev pub Ends : Option ℕ → Bool → Role → Type 0
Ends timeout b r = Parked timeout b r ⊎ ((r ≡ waker over) ⊎ (r ≡ bystander))

abbrev pub roles : ℕ → Role
roles zero = owner awake
roles (suc zero) = waker quiet_waker
roles (suc (suc i)) = bystander

module _ {S : Type 0} (g : Config) (me : ℕ) (timeout : Option ℕ) (ticks : ℕ) where
  ticker-Ok : (k : ℕ) → Ok {S = S} me (Ends timeout) (ticker k) bystander
  unfolding ticker
  ticker-Ok zero = Safe.ret (inr (inr refl))
  ticker-Ok (suc k) =
      access-Safe (Sees me) (Moves me) Allowed _ _ _
        λ c m sees. (bystander, (refl, refl), ticker-Ok k)

  unparker-Ok : Ok {S = S} me (Ends timeout) (unparker g me) (waker quiet_waker)
  unfolding unparker
  unparker-Ok = access-Safe (Sees me) (Moves me) Allowed _ _ _ λ c m (o, good). (
    waker beginning,
    (λ o' good'. ground arith),
    bind-Safe (Sees me) (Moves me) Allowed _ (unpark-Ok g me) λ _ r e. rw e (
        access-Safe (Sees me) (Moves me) Allowed _ _ _
          λ c m (o, good). (waker over, (λ o' good'. ground arith), Safe.ret (inr (inl refl)))),
  )

  parker-Ok : Ok {S = S} me (Ends timeout) (parker g me timeout) (owner awake)
  unfolding parker
  parker-Ok =
      bind-Safe (Sees me) (Moves me) Allowed _ (park-Ok g me timeout)
        λ b r parked. Safe.ret (inl parked)

  threads-Ok : (i : ℕ) → Ok {S = S} me (Ends timeout) (threads g me timeout ticks i) (roles i)
  unfolding threads
  threads-Ok zero = parker-Ok
  threads-Ok (suc zero) = unparker-Ok
  threads-Ok (suc (suc i)) = ticker-Ok ticks

  module _ (m : Memory S) (empty : (m.heap me).parker ≡ null) (uncounted : m.counts ≡ no_counts)
      (l : List (ℕ × Bool)) where
    pub reachable :
        (rs : ℕ → Role) × Sound
          (Sees me)
          (Moves me)
          Allowed
          3
          (Inv me)
          (Inv-Sees me)
          (Moves-Inv me)
          (Ends timeout)
          (run (start g me timeout ticks m) l)
          rs
    reachable =
        run-Sound (Sees me) (Moves me) Allowed 3 (Inv me) (Inv-Sees me) (Moves-Inv me)
          (start g me timeout ticks m) roles l
          (record {
            counted = refl;
            inv = record {
              o = awake;
              w = quiet_waker;
              owns = refl;
              wakes = refl;
              stands_by = refl;
              good = ground (arith, empty, uncounted);
            };
            safe = λ i lt. threads-Ok i;
          })

ticker-Lasts : (S : Type 0) (k n : ℕ) → Lasts k (ticker {S = S} n)
unfolding ticker
ticker-Lasts S k zero = ret-Lasts _ k true
ticker-Lasts S k (suc n) = uncounted-Lasts k _ _ _ λ _. ticker-Lasts S k n

pub threads-Lasts :
    (S : Type 0) (g : Config) (me : ℕ) (timeout : Option ℕ) (ticks i : ℕ)
    → Lasts g.fuel (threads {S = S} g me timeout ticks i)
unfolding threads parker unparker
threads-Lasts S g me timeout ticks zero =
    bind-Lasts g.fuel (park g me timeout) _ (park-Lasts S g me timeout) λ b. ret-Lasts _ g.fuel b
threads-Lasts S g me timeout ticks (suc zero) = uncounted-Lasts g.fuel _ _ _ λ _.
    bind-Lasts g.fuel (unpark g me) _ (unpark-Lasts S g me g.fuel)
      λ _. uncounted-Lasts g.fuel _ _ _ λ _. ret-Lasts _ g.fuel true
threads-Lasts S g me timeout ticks (suc (suc i)) = ticker-Lasts S g.fuel ticks
