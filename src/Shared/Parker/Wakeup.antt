-- ===== src/Shared/Parker/Wakeup.antt =====
-- What a thread that parks and the one that unparks it promise each other.
use native.Mathlib.Decide.{dec_lt}
use usync.Prelude.{
  ap, bit, if◌then◌else◌, ℕ, ◌+◌, ◌≤◌, ◌<◌, ◌≡◌, ◌≢◌, refl, ap, Bool, true, Option, none, some,
  List, ◌⊎◌, inl, inr, length, arith,
}
use usync.Prog.{
  Reason, no_fuel, bad_word, not_queued, not_completed, broken_queue, poisoned, unwound, ret, halt,
  broken_queue, run, solo,
}
use usync.Prog.Safe.{Safe-Outcome}
use usync.Prog.Lasts.{run-Lasts}
use usync.Shared.Parker.{is_registered, is_notified}
use usync.Shared.{EventPtr, null, registered, notified, Counts, Waiter, Memory, no_counts, Config}
use usync.Shared.Parker.Roles.{Owner, Waker, Role, owner, waker, Good, Sees, Moves, Allowed}
use usync.Shared.Parker.Sleeping.{awake, passed}
use usync.Shared.Parker.Waking.{over}
use usync.Shared.Parker.Client.{parker, threads, start}
use usync.Shared.Parker.Returning.{solo-returns}
use usync.Shared.Parker.Threads.{Ends, reachable, threads-Lasts}

owner_end :
    (timeout : Option ℕ) (b : Bool) (o : Owner) (r : Role)
    → r ≡ owner o
    → Ends timeout b r
    → (o ≡ (if b then passed else awake)) × (timeout ≡ none → b ≡ true)
owner_end timeout b o r e (inl (e', sure)) = (cc, sure)
owner_end timeout b o r e (inr (inl e')) = cc
owner_end timeout b o r e (inr (inr e')) = cc

waker_end :
    (timeout : Option ℕ) (b : Bool) (w : Waker) (r : Role)
    → r ≡ waker w
    → Ends timeout b r
    → w ≡ over
waker_end timeout b w r e (inl (e', sure)) = cc
waker_end timeout b w r e (inr (inl e')) = cc
waker_end timeout b w r e (inr (inr e')) = cc

is_empty : (p : EventPtr) → bit (is_registered p) ≡ 0 → bit (is_notified p) ≡ 0 → p ≡ null
is_empty null r n = refl
is_empty registered r n = absurd (omega arith)
is_empty notified r n = absurd (omega arith)

-- What has happened when the owner has passed.
passed-Good :
    (w : Waker) (x : Waiter) (c : Counts) → Good passed w x c → (0 < c.inside) × (x.parker ≡ null)
passed-Good w x c good = (
  omega (arith, good.swapped, good.began, good.inside),
  is_empty x.parker (omega (arith, good.registered)) (omega (arith, good.swapped, good.took_once)),
)

sure_or :
    (timeout : Option ℕ) (b : Bool) → (timeout ≡ none → b ≡ true) → (b ≡ true) ⊎ (timeout ≢ none)
sure_or none b sure = inl (sure refl)
sure_or (some limit) b sure = inr λ h. cc

-- What the only reason is that a thread stops.
only_fuel : (why : Reason) → Allowed why → why ≡ no_fuel
only_fuel no_fuel h = refl
only_fuel bad_word h = absurd h
only_fuel not_queued h = absurd h
only_fuel not_completed h = absurd h
only_fuel broken_queue h = absurd h
only_fuel poisoned h = absurd h
only_fuel unwound h = absurd h

module _ {S : Type 0} (g : Config) (me : ℕ) (timeout : Option ℕ) (ticks : ℕ) (m : Memory S)
    (l : List (ℕ × Bool)) where
  -- On a parker that is empty at first, whatever its event holds from before, with a timeout or
  -- without, and after every schedule: if `park` has returned true, then the other thread has begun
  -- to unpark, and the parker is empty, so that it can be used again.
  pub parked-unparked :
      (m.heap me).parker ≡ null
      → m.counts ≡ no_counts
      → (run (start g me timeout ticks m) l).thread 0 ≡ ret true
      → (0 < (run (start g me timeout ticks m) l).memory.counts.inside)
        × (((run (start g me timeout ticks m) l).memory.heap me).parker ≡ null)
  parked-unparked empty uncounted woken =
      let (rs, sound) = reachable g me timeout ticks m empty uncounted l in
      let ended =
        rw woken at (Safe-Outcome (Sees me) (Moves me) Allowed (sound.safe 0 (omega arith))) in
      let (e, sure) = owner_end timeout true sound.inv.o (rs 0) sound.inv.owns ended in
      passed-Good sound.inv.w _ _ (rw e at sound.inv.good)

  -- On a parker that is empty at first, with a timeout or without, and after every schedule: if one
  -- of the threads has been stopped, then for want of fuel, and the schedule has at least as many
  -- turns as there is fuel. So no assertion of `park` or `unpark` fails, on the pointer of the
  -- parker or that the event holds a thread.
  pub stopped-no_fuel :
      (i : ℕ) (why : Reason)
      → i < 3
      → (m.heap me).parker ≡ null
      → m.counts ≡ no_counts
      → (run (start g me timeout ticks m) l).thread i ≡ halt why
      → (why ≡ no_fuel) × (g.fuel ≤ length l)
  stopped-no_fuel i why lt empty uncounted stopped =
      let (rs, sound) = reachable g me timeout ticks m empty uncounted l in
      let allowed = rw stopped at (Safe-Outcome (Sees me) (Moves me) Allowed (sound.safe i lt)) in
      let e = only_fuel why allowed in
      (
        e,
        elim (dec_lt (length l) g.fuel) [
          | no enough ↦ omega arith
          | yes shorter ↦ absurd (
              rw (stopped, e) at
                (run-Lasts g.fuel 1 (start g me timeout ticks m) i l (omega arith)
                  (threads-Lasts S g me timeout ticks i)))
        ],
      )

  -- No wake-up is lost. On a parker that is empty at first, and after every schedule that has at
  -- least six turns fewer than there is fuel: once `unpark` has returned, the thread that parks
  -- needs no other thread, no spurious wake-up and no time to pass. It is not left blocked without
  -- a token, and running alone it returns from `park`, with true if it has no timeout.
  pub no_lost_wakeup :
      (m.heap me).parker ≡ null
      → m.counts ≡ no_counts
      → length l + 6 ≤ g.fuel
      → (run (start g me timeout ticks m) l).thread 1 ≡ ret true
      → let s = run (start g me timeout ticks m) l in
        (b : Bool) × ((solo (s.thread 0) s.memory).1 ≡ inl b) × ((b ≡ true) ⊎ (timeout ≢ none))
  unfolding threads parker
  no_lost_wakeup empty uncounted fuel finished =
      let (rs, sound) = reachable g me timeout ticks m empty uncounted l in
      let ended =
        rw finished at (Safe-Outcome (Sees me) (Moves me) Allowed (sound.safe 1 (omega arith))) in
      let done : sound.inv.w ≡ over =
        waker_end timeout true sound.inv.w (rs 1) sound.inv.wakes ended in
      let (b, e, o', q) =
        solo-returns me 5 _ sound.inv.o sound.inv.w sound.inv.owns sound.inv.good
          (ap (λ (w : Waker). w.over) done) sound.inv.good.nearly (sound.safe 0 (omega arith))
          (run-Lasts g.fuel 6 (start g me timeout ticks m) 0 l fuel
            (threads-Lasts S g me timeout ticks 0)) in
      (b, e, sure_or timeout b (owner_end timeout b o' (owner o') refl q).1)
