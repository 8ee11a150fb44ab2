-- ===== src/Shared/Parker/Roles.antt =====
-- src/shared/parker.rs and src/shared/event.rs, for one thread that parks and one that unparks it:
-- what each of them may rely on, and what it must keep to.
use usync.Prelude.{zero, suc, ℕ, ◌+◌, ◌≤◌, ◌<◌, ◌≡◌, refl, bit, update, arith}
use usync.Prog.{Prog, Reason, no_fuel}
use usync.Prog.Safe.{Safe}
use usync.Shared.{Waiter, Memory, Counts}
use usync.Shared.Parker.{is_registered, is_notified}

-- The owner of the parker, each as 0 or 1: its event is registered; it has reset the event, and
-- entered its thread there; it knows that the parker is notified; it
-- parks its thread, if there is no token; it has been woken up. `left` is how
-- many accesses it makes at most once the unparking is over.
pub record Owner : Type 0 where
  pub waits : ℕ
  pub cleared : ℕ
  pub entered : ℕ
  pub knows : ℕ
  pub parks : ℕ
  pub passed : ℕ
  pub left : ℕ

-- The thread that unparks: it has begun, has swapped the parker's pointer, has still to set the event,
-- and to take the thread out of it; has given the thread its
-- token; and it is over.
pub record Waker : Type 0 where
  pub begun : ℕ
  pub took : ℕ
  pub owes : ℕ
  pub holds : ℕ
  pub gave : ℕ
  pub over : ℕ

pub data Role : Type 0 where
  owner : Owner → Role
  waker : Waker → Role
  bystander : Role

-- How the parker and its event, the counts and the two roles fit together.
pub record Good (o : Owner) (w : Waker) (x : Waiter) (c : Counts) : Type 0 where
  pub one : o.waits + o.cleared + o.knows + o.passed ≤ 1
  pub nearly : o.left ≤ 5
  pub entered : o.entered ≤ o.cleared
  pub swapped : bit (is_notified x.parker) + o.passed ≡ w.took
  pub registered : bit (is_registered x.parker) ≤ o.waits
  pub waits : o.waits ≤ bit (is_registered x.parker) + bit (is_notified x.parker)
  pub notified : o.knows ≤ bit (is_notified x.parker)
  pub owes : w.owes ≤ o.waits
  pub owes_took : w.owes ≤ w.took
  pub set : o.waits + w.took ≤ 1 + w.owes + bit x.event.is_set
  pub set_late : bit x.event.is_set + o.waits ≤ 1 + w.took
  pub set_once : bit x.event.is_set + w.owes ≤ 1
  pub cleared : o.cleared + bit x.event.is_set ≤ 1
  pub thread : o.entered ≤ bit x.event.has_thread
  pub thread_in : bit (is_registered x.parker) ≤ bit x.event.has_thread
  pub holds : w.holds ≤ bit x.event.has_thread
  pub holds_owes : w.holds ≤ w.owes
  pub took_once : w.took ≤ 1
  pub began : w.took ≤ w.begun
  pub inside : c.inside ≡ w.begun
  pub parks : o.parks ≤ o.waits
  pub gave : w.gave + w.owes ≤ w.took
  pub token : w.gave + o.parks ≤ 1 + bit x.event.token
  pub over : w.over ≤ w.gave
  pub finished : c.finished ≡ w.over

-- Only the bound on loop rounds stops a thread: no assertion fails.
abbrev pub Allowed : Reason → Type 0
Allowed no_fuel = Unit
Allowed _ = ⊥

module _ {S : Type 0} (me : ℕ) where
  abbrev pub Sees : Role → Memory S → Type 0
  Sees (owner o) m = (w : Waker) × Good o w (m.heap me) m.counts
  Sees (waker w) m = (o : Owner) × Good o w (m.heap me) m.counts
  Sees bystander m = Unit

  -- A role moves with the memory as long as every role of the other thread still fits.
  abbrev pub Moves : Role → Memory S → Role → Memory S → Type 0
  Moves (owner o) m (owner o') m' =
      (w : Waker)
      → Good o w (m.heap me) m.counts
      → Good o' w (m'.heap me) m'.counts × (w.over ≡ 1 → o'.left < o.left)
  Moves (waker w) m (waker w') m' =
      (o : Owner) → Good o w (m.heap me) m.counts → Good o w' (m'.heap me) m'.counts
  Moves bystander m bystander m' = (m'.heap me ≡ m.heap me) × (m'.counts ≡ m.counts)
  Moves _ m _ m' = ⊥

  abbrev pub Ok : {A : Type 0} → (A → Role → Type 0) → Prog (Memory S) A → Role → Type 0
  Ok = Safe Sees Moves Allowed

  -- The invariant of an owner, a waker and a bystander.
  pub record Inv (m : Memory S) (rs : ℕ → Role) : Type 0 where
    pub o : Owner
    pub w : Waker
    pub owns : rs 0 ≡ owner o
    pub wakes : rs 1 ≡ waker w
    pub stands_by : rs 2 ≡ bystander
    pub good : Good o w (m.heap me) m.counts

  pub Inv-Sees : (m : Memory S) (rs : ℕ → Role) (i : ℕ) → i < 3 → Inv m rs → Sees (rs i) m
  Inv-Sees m rs zero lt inv = rw inv.owns (inv.w, inv.good)
  Inv-Sees m rs (suc zero) lt inv = rw inv.wakes (inv.o, inv.good)
  Inv-Sees m rs (suc (suc zero)) lt inv = rw inv.stands_by tt
  Inv-Sees m rs (suc (suc (suc i))) lt inv = absurd (omega arith)

  owner-Inv :
      (m : Memory S) (rs : ℕ → Role) (m' : Memory S) (r' : Role) (inv : Inv m rs)
      → Moves (owner inv.o) m r' m'
      → Inv m' (update rs 0 r')
  owner-Inv m rs m' (owner o) inv mv = record {
    o = o;
    w = inv.w;
    owns = refl;
    wakes = inv.wakes;
    stands_by = inv.stands_by;
    good = (mv inv.w inv.good).0;
  }
  owner-Inv m rs m' (waker w) inv mv = absurd mv
  owner-Inv m rs m' bystander inv mv = absurd mv

  waker-Inv :
      (m : Memory S) (rs : ℕ → Role) (m' : Memory S) (r' : Role) (inv : Inv m rs)
      → Moves (waker inv.w) m r' m'
      → Inv m' (update rs 1 r')
  waker-Inv m rs m' (waker w) inv mv = record {
    o = inv.o;
    w = w;
    owns = inv.owns;
    wakes = refl;
    stands_by = inv.stands_by;
    good = mv inv.o inv.good;
  }
  waker-Inv m rs m' (owner o) inv mv = absurd mv
  waker-Inv m rs m' bystander inv mv = absurd mv

  bystander-Inv :
      (m : Memory S) (rs : ℕ → Role) (m' : Memory S) (r' : Role)
      → Inv m rs
      → Moves bystander m r' m'
      → Inv m' (update rs 2 r')
  bystander-Inv m rs m' bystander inv (heap, counts) = record {
    o = inv.o;
    w = inv.w;
    owns = inv.owns;
    wakes = inv.wakes;
    stands_by = refl;
    good = rw (heap, counts) inv.good;
  }
  bystander-Inv m rs m' (owner o) inv mv = absurd mv
  bystander-Inv m rs m' (waker w) inv mv = absurd mv

  pub Moves-Inv :
      (m : Memory S) (rs : ℕ → Role) (i : ℕ) (m' : Memory S) (r' : Role)
      → i < 3
      → Inv m rs
      → Moves (rs i) m r' m'
      → Inv m' (update rs i r')
  Moves-Inv m rs zero m' r' lt inv mv = owner-Inv m rs m' r' inv (rw inv.owns at mv)
  Moves-Inv m rs (suc zero) m' r' lt inv mv = waker-Inv m rs m' r' inv (rw inv.wakes at mv)
  Moves-Inv m rs (suc (suc zero)) m' r' lt inv mv =
      bystander-Inv m rs m' r' inv (rw inv.stands_by at mv)
  Moves-Inv m rs (suc (suc (suc i))) m' r' lt inv mv = absurd (omega arith)
