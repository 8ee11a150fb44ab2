-- ===== src/Shared/Parker/Woken.antt =====
-- src/shared/parker.rs: what `unpark` does to a waiter, for a thread that runs alone.
use usync.Prelude.{
  ℕ, Bool, true, false, ◌≡◌, refl, sym, ap, ◌∙◌, inl, inr, ◌==◌, if◌then◌else◌, update, update_self,
  update_same, not, Bool-cases, arith,
}
use usync.Prelude.{List, [], ◌∷◌, Option, none, some}
use usync.Shared.Queue.Linked.{Apart}
use mathlib.Core.Path.{fun_ext}
use usync.Prog.{solo, ◌>>=◌, ◌>>◌, access, assert, skip, broken_queue}
use usync.Shared.{EventPtr, null, notified, registered, Event, Waiter, Memory, with_waiter, Config}
use usync.Shared.Parker.{unpark, event_set, set_event, is_null, is_notified}

abbrev pub woken_event : EventPtr → Event → Event
woken_event null e = e
woken_event notified e = e
woken_event registered e = record e { has_thread = false; is_set = true; token = true }

-- A waiter after `unpark`: its parker is notified, and an event that its thread has registered is set.
abbrev pub woken : Waiter → Waiter
woken w = record w { parker = notified; event = woken_event w.parker w.event }

-- Whether `unpark` may be called: it has not been yet, and a registered event has its thread.
abbrev pub MayWake : EventPtr → Event → Type 0
MayWake null e = Unit
MayWake notified e = ⊥
MayWake registered e = e.has_thread ≡ true

abbrev pub Waits : Waiter → Type 0
Waits w = MayWake w.parker w.event

with_waiter_twice :
    {S : Type 0} (p : ℕ) (f h : Waiter → Waiter) (m : Memory S)
    → with_waiter p f (with_waiter p h m) ≡ with_waiter p (λ w. f (h w)) m
with_waiter_twice p f h m =
    let same : update (update m.heap p (h (m.heap p))) p (f (update m.heap p (h (m.heap p)) p))
        ≡ update m.heap p (f (h (m.heap p))) =
      fun_ext λ x. elim (Bool-cases (p == x)) [
        | inl here ↦ rw (here, update_self m.heap p (h (m.heap p))) refl
        | inr other ↦ rw other refl
      ] in
    λ i. record m { heap = same i }

with_waiter_id : {S : Type 0} (p : ℕ) (m : Memory S) → with_waiter p (λ w. w) m ≡ m
with_waiter_id p m = λ i. record m { heap = update_same m.heap p i }

-- `Event::set`, after it has read whether the event has a thread.
after_read :
    {S : Type 0} (g : Config) (w : ℕ) (thread : Bool) (m : Memory S)
    → thread ≡ true
    → solo
        (set_event g w (λ e. record e { has_thread = false })
          >> (assert broken_queue thread
              >> (set_event g w (λ e. record e { is_set = true })
                  >> set_event g w (λ e. record e { token = true }))))
        m
      ≡ (with_waiter w (λ x. record x { event = woken_event registered x.event }) m, inl tt)
unfolding solo ◌>>=◌ access assert
after_read g w true m there =
    ap (λ (m' : Memory _). (m', inl tt))
      (with_waiter_twice w (λ x. record x { event = record x.event { token = true } })
          (λ x. record x { event = record x.event { is_set = true } })
          (with_waiter w (λ x. record x { event = record x.event { has_thread = false } }) m)
        ∙ with_waiter_twice w
            (λ x. record x { event = record x.event { is_set = true; token = true } })
            (λ x. record x { event = record x.event { has_thread = false } }) m)
after_read g w false m there = cc

-- `unpark`, after it has notified the parker, which was `p`.
after_swap :
    {S : Type 0} (g : Config) (w : ℕ) (p : EventPtr) (m : Memory S)
    → MayWake p (m.heap w).event
    → solo
        (if is_null p then skip else assert broken_queue (not (is_notified p)) >> event_set g w)
        m
      ≡ (with_waiter w (λ x. record x { event = woken_event p x.event }) m, inl tt)
unfolding event_set solo ◌>>=◌ access assert
after_swap g w null m may = ap (λ (m' : Memory _). (m', inl tt)) (sym (with_waiter_id w m))
after_swap g w registered m may = after_read g w (m.heap w).event.has_thread m may
after_swap g w notified m may = absurd may

-- Alone, `unpark` notifies the parker of a waiter and sets its event, and changes nothing else.
pub unpark_lem :
    {S : Type 0} (g : Config) (w : ℕ) (m : Memory S)
    → Waits (m.heap w)
    → solo (unpark g w) m ≡ (with_waiter w woken m, inl tt)
unfolding unpark solo ◌>>=◌ access
unpark_lem g w m waits =
    after_swap g w (m.heap w).parker (with_waiter w (λ x. record x { parker = notified }) m)
      (rw (update_self m.heap w (record (m.heap w) { parker = notified })) waits)
    ∙ ap (λ (m' : Memory _). (m', inl tt))
        (with_waiter_twice w (λ x. record x { event = woken_event (m.heap w).parker x.event })
          (λ x. record x { parker = notified }) m)

-- The memory after `unpark` of each of `ws`.
abbrev pub wake_each : {S : Type 0} → List ℕ → Memory S → Memory S
wake_each [] m = m
wake_each (x ∷ xs) m = wake_each xs (with_waiter x woken m)

abbrev pub front : List ℕ → Option ℕ
front [] = none
front (x ∷ xs) = some x

-- The waiters `xs` follow by their `next`, no other one follows them, and none has been woken up yet.
abbrev pub Forward : (ℕ → Waiter) → List ℕ → Type 0
Forward heap [] = Unit
Forward heap (x ∷ xs) = ((heap x).next ≡ front xs) × Waits (heap x) × Forward heap xs

-- Waking one waiter up leaves the others alone.
pub woken-Forward :
    {S : Type 0} (m : Memory S) (x : ℕ) (xs : List ℕ)
    → Apart x xs
    → Forward m.heap xs
    → Forward (with_waiter x woken m).heap xs
woken-Forward m x [] apart forward = tt
woken-Forward m x (y ∷ ys) (ne, apart) (next, waits, forward) =
    let other : (x == y) ≡ false = ground (arith, ne) in
    (rw other next, rw other waits, woken-Forward m x ys apart forward)
