-- ===== src/Prog/Lasts.antt =====
-- Fuel: programs that do not run out of it within a number of accesses.
use usync.Prelude.{
  ℕ, zero, suc, ◌+◌, ◌≤◌, Bool, true, false, ◌==◌, ltb, List, [], ◌∷◌, length, Bool-cases, inl, inr,
  ◌≡◌, arith, if◌then◌else◌,
}
use usync.Prog.{
  Prog, ret, act, halt, Reason, broken_queue, no_fuel, ◌>>=◌, access, System, turn, run, rest,
  assert,
}

-- A thread that has stopped has not done so for want of fuel.
abbrev Fuelled : Reason → Type 0
Fuelled no_fuel = ⊥
Fuelled _ = Unit

-- Within `k` accesses the program does not run out of fuel.
abbrev pub Lasts : {M A : Type 0} → ℕ → Prog M A → Type 0
Lasts zero p = Unit
Lasts (suc k) (ret a) = Unit
Lasts {M} (suc k) (act e f) = (c : Bool) (m : M) → Lasts k (f c m)
Lasts (suc k) (halt r) = Fuelled r

pub ret-Lasts : (M : Type 0) {A : Type 0} (k : ℕ) (a : A) → Lasts {M = M} k (ret a)
ret-Lasts M zero a = tt
ret-Lasts M (suc k) a = tt

pub less-Lasts : {M A : Type 0} (k : ℕ) (p : Prog M A) → Lasts (suc k) p → Lasts k p
less-Lasts zero p h = tt
less-Lasts (suc k) (ret a) h = tt
less-Lasts (suc k) (act e f) h = λ c m. less-Lasts k (f c m) (h c m)
less-Lasts (suc k) (halt r) h = h

pub bind-Lasts :
    {M A B : Type 0} (k : ℕ) (p : Prog M A) (f : A → Prog M B)
    → Lasts k p
    → ((a : A) → Lasts k (f a))
    → Lasts k (p >>= f)
unfolding ◌>>=◌
bind-Lasts zero p f h next = tt
bind-Lasts (suc k) (ret a) f h next = next a
bind-Lasts (suc k) (act e g) f h next =
    λ c m. bind-Lasts k (g c m) f (h c m) λ a. less-Lasts k (f a) (next a)
bind-Lasts (suc k) (halt r) f h next = h

-- An access in front of the rest, and one that is counted.
pub access-Lasts :
    {M A B : Type 0} (k : ℕ) (e : Bool → M → M) (v : Bool → M → B) (f : B → Prog M A)
    → ((b : B) → Lasts k (f b))
    → Lasts (suc k) (access e v >>= f)
unfolding access ◌>>=◌
access-Lasts k e v f next = λ c m. next (v c m)

pub uncounted-Lasts :
    {M A B : Type 0} (k : ℕ) (e : Bool → M → M) (v : Bool → M → B) (f : B → Prog M A)
    → ((b : B) → Lasts k (f b))
    → Lasts k (access e v >>= f)
uncounted-Lasts k e v f next = less-Lasts k (access e v >>= f) (access-Lasts k e v f next)

pub last-Lasts : {M A : Type 0} (k : ℕ) (e : Bool → M → M) (v : Bool → M → A) → Lasts k (access e v)
unfolding access
last-Lasts zero e v = tt
last-Lasts (suc k) e v = λ c m. ret-Lasts _ k (v c m)

pub assert-Lasts :
    {M A : Type 0} (k : ℕ) (b : Bool) (f : Unit {0} → Prog M A)
    → Lasts k (f tt)
    → Lasts k (assert broken_queue b >>= f)
unfolding assert ◌>>=◌
assert-Lasts k true f h = h
assert-Lasts zero false f h = tt
assert-Lasts (suc k) false f h = tt

pub if-Lasts :
    {M A : Type 0} (k : ℕ) (b : Bool) (p q : Prog M A)
    → Lasts k p
    → Lasts k q
    → Lasts k (if b then p else q)
if-Lasts k true p q hp hq = hp
if-Lasts k false p q hp hq = hq

-- What is left after a schedule.
rest-Lasts :
    {M A : Type 0} (k : ℕ) (c : Bool) (m : M) (p : Prog M A)
    → Lasts (suc k) p
    → Lasts k (rest c m p)
unfolding rest
rest-Lasts k c m (ret a) h = ret-Lasts _ k a
rest-Lasts k c m (act e f) h = h c m
rest-Lasts k c m (halt r) h = less-Lasts k (halt r) h

turn-Lasts :
    {M A : Type 0} (k : ℕ) (s : System M A) (i j : ℕ) (c : Bool)
    → Lasts (suc k) (s.thread j)
    → Lasts k ((turn s i c).thread j)
unfolding turn
turn-Lasts k s i j c h = elim (Bool-cases (ltb i s.count)) [
  | inr out ↦ rw out (less-Lasts k (s.thread j) h)
  | inl there ↦ elim (Bool-cases (i == j)) [
    | inl same ↦
        let e : i ≡ j = ground arith in rw (there, same, e) (rest-Lasts k c s.memory (s.thread j) h)
    | inr other ↦ rw (there, other) (less-Lasts k (s.thread j) h)
  ]
]

pub weaken-Lasts : {M A : Type 0} (k n : ℕ) (p : Prog M A) → k ≤ n → Lasts n p → Lasts k p
weaken-Lasts zero n p le h = tt
weaken-Lasts (suc k) zero p le h = absurd (omega arith)
weaken-Lasts (suc k) (suc n) (ret a) le h = tt
weaken-Lasts (suc k) (suc n) (act e f) le h = λ c m. weaken-Lasts k n (f c m) (omega arith) (h c m)
weaken-Lasts (suc k) (suc n) (halt r) le h = h

pub run-Lasts :
    {M A : Type 0} (n k : ℕ) (s : System M A) (i : ℕ) (l : List (ℕ × Bool))
    → length l + k ≤ n
    → Lasts n (s.thread i)
    → Lasts k ((run s l).thread i)
unfolding run
run-Lasts n k s i [] le h = weaken-Lasts k n (s.thread i) (omega arith) h
run-Lasts zero k s i ((j, c) ∷ l) le h = absurd (omega arith)
run-Lasts (suc n) k s i ((j, c) ∷ l) le h =
    run-Lasts n k (turn s j c) i l (omega arith) (turn-Lasts n s j i c h)
