-- ===== src/Shared/Parker/Rules.antt =====
-- Accesses to a parker and its event, by the thread that parks and by the one that unparks.
use usync.Prelude.{
  ◌+◌, ℕ, ◌≡◌, ◌<◌, refl, Bool, true, false, Option, none, some, bit, if◌then◌else◌, match_option,
  update_self,
}
use usync.Prog.{Prog, access, assert, broken_queue, ◌>>=◌}
use usync.Prog.Safe.{Safe, access-Safe}
use usync.Shared.{EventPtr, null, registered, notified, Waiter, Memory, Counts, with_waiter}
use usync.Shared.Parker.{is_notified, is_null, is_registered}
use usync.Shared.Parker.Roles.{Owner, Waker, Role, owner, waker, Good, Sees, Moves, Allowed, Ok}

pub one_pointer : (p : EventPtr) → bit (is_null p) + bit (is_registered p) + bit (is_notified p) ≡ 1
one_pointer null = refl
one_pointer registered = refl
one_pointer notified = refl

module _ {S : Type 0} (me : ℕ) {A : Type 0} {Q : A → Role → Type 0} where
  -- An access of the owner that changes its waiter, one that does not, and one to the clock.
  pub own :
      {B : Type 0} (o : Owner) (h : Waiter → Waiter) (v : Waiter → B) (f : B → Prog (Memory S) A)
      → ((x : Waiter) (c : Counts) (w : Waker)
          → Good o w x c
          → (o' : Owner) × ((w' : Waker)
              → Good o w' x c
              → Good o' w' (h x) c × (w'.over ≡ 1 → o'.left < o.left))
            × Ok me Q (f (v x)) (owner o'))
      → Ok me Q (access (λ c. with_waiter me h) (λ c m. v (m.heap me)) >>= f) (owner o)
  own o h v f next = access-Safe (Sees me) (Moves me) Allowed _ _ f λ c m (w, good).
      let (o', step, ok) = next (m.heap me) m.counts w good in
      (owner o', rw (update_self m.heap me (h (m.heap me))) step, ok)

  pub own_choice :
      {B : Type 0} (o : Owner) (h : Waiter → Waiter) (v : Bool → Waiter → B)
      (f : B → Prog (Memory S) A)
      → ((b : Bool) (x : Waiter) (c : Counts)
          → (o' : Owner) × ((w' : Waker)
              → Good o w' x c
              → Good o' w' (h x) c × (w'.over ≡ 1 → o'.left < o.left))
            × Ok me Q (f (v b x)) (owner o'))
      → Ok me Q (access (λ c. with_waiter me h) (λ c m. v c (m.heap me)) >>= f) (owner o)
  own_choice o h v f next = access-Safe (Sees me) (Moves me) Allowed _ _ f λ b m (w, good).
      let (o', step, ok) = next b (m.heap me) m.counts in
      (owner o', rw (update_self m.heap me (h (m.heap me))) step, ok)

  pub own_look :
      {B : Type 0} (o : Owner) (v : Memory S → B) (f : B → Prog (Memory S) A)
      → ((m : Memory S) (w : Waker)
          → Good o w (m.heap me) m.counts
          → (o' : Owner) × ((w' : Waker)
              → Good o w' (m.heap me) m.counts
              → Good o' w' (m.heap me) m.counts × (w'.over ≡ 1 → o'.left < o.left))
            × Ok me Q (f (v m)) (owner o'))
      → Ok me Q (access (λ c m. m) (λ c m. v m) >>= f) (owner o)
  own_look o v f next =
      access-Safe (Sees me) (Moves me) Allowed _ _ f
        λ c m (w, good). let (o', step, ok) = next m w good in (owner o', step, ok)

  pub option-Ok :
      {B : Type 0} (o : Option B) {r : Role} {p : Prog (Memory S) A} {f : B → Prog (Memory S) A}
      → Ok me Q p r
      → ((b : B) → Ok me Q (f b) r)
      → Ok me Q (match_option o p f) r
  option-Ok none hp hf = hp
  option-Ok (some b) hp hf = hf b

  -- The branch of an `if` that is taken.
  pub then-Ok :
      (b : Bool) (p q : Prog (Memory S) A) {r : Role}
      → b ≡ true
      → Ok me Q p r
      → Ok me Q (if b then p else q) r
  then-Ok b p q e ok = rw e ok

  pub assert-Ok :
      (b : Bool) (f : Unit {0} → Prog (Memory S) A) {r : Role}
      → b ≡ true
      → Ok me Q (f tt) r
      → Ok me Q (assert broken_queue b >>= f) r
  unfolding assert ◌>>=◌
  assert-Ok true f h ok = ok
  assert-Ok false f h ok = cc

  -- An access of the thread that unparks.
  pub wakes :
      {B : Type 0} (w : Waker) (h : Waiter → Waiter) (v : Waiter → B) (f : B → Prog (Memory S) A)
      → ((x : Waiter) (c : Counts) (o : Owner)
          → Good o w x c
          → (w' : Waker) × ((o' : Owner) → Good o' w x c → Good o' w' (h x) c)
            × Ok me Q (f (v x)) (waker w'))
      → Ok me Q (access (λ c. with_waiter me h) (λ c m. v (m.heap me)) >>= f) (waker w)
  wakes w h v f next = access-Safe (Sees me) (Moves me) Allowed _ _ f λ c m (o, good).
      let (w', step, ok) = next (m.heap me) m.counts o good in
      (waker w', rw (update_self m.heap me (h (m.heap me))) step, ok)

  pub wakes_look :
      {B : Type 0} (w : Waker) (v : Waiter → B) (f : B → Prog (Memory S) A)
      → ((x : Waiter) (c : Counts) (o : Owner) → Good o w x c → Ok me Q (f (v x)) (waker w))
      → Ok me Q (access (λ c m. m) (λ c m. v (m.heap me)) >>= f) (waker w)
  wakes_look w v f next =
      access-Safe (Sees me) (Moves me) Allowed _ _ f
        λ c m (o, good). (waker w, (λ o' good'. good'), next (m.heap me) m.counts o good)

-- The same as the last access.
pub last_wakes :
    {S : Type 0} (me : ℕ) {B : Type 0} {R : B → Role → Type 0} (w : Waker) (h : Waiter → Waiter)
    (v : Waiter → B)
    → ((x : Waiter) (c : Counts) (o : Owner)
        → Good o w x c
        → (w' : Waker) × ((o' : Owner) → Good o' w x c → Good o' w' (h x) c) × R (v x) (waker w'))
    → Ok {S = S} me R (access (λ c. with_waiter me h) (λ c m. v (m.heap me))) (waker w)
unfolding access
last_wakes me w h v last =
    Safe.act (λ c m (o, good). waker (last (m.heap me) m.counts o good).0)
      (λ c m (o, good).
        rw (update_self m.heap me (h (m.heap me))) ((last (m.heap me) m.counts o good).1))
      (λ c m (o, good). Safe.ret (last (m.heap me) m.counts o good).2)
