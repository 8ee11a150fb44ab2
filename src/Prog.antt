-- ===== src/Prog.antt =====
-- Threads as programs of atomic accesses, and their interleavings. The code under src/ shares memory
-- only through atomics and through cells whose accesses the atomics order, so a thread is a
-- sequence of accesses with local computation between them.
pub mod Safe
pub mod Solo
pub mod Lasts
use usync.Prelude.{
  Option, none, some, ℕ, zero, suc, Bool, true, false, List, [], ◌∷◌, ◌≡◌, if◌then◌else◌, ◌==◌, ltb,
  ◌⊎◌, inl, inr, update,
}

-- Why a thread stopped for good.
pub data Reason : Type 0 where
  bad_word : Reason  -- an `assert` on the state word failed
  not_queued : Reason  -- so did that of `unlock_and_unpark` that threads are queued
  not_completed : Reason  -- so did that of `wait_slow` that the barrier is completed
  broken_queue : Reason  -- an `expect` or `assert` on a waiter failed
  poisoned : Reason  -- `call_once` on a poisoned `Once`
  unwound : Reason  -- a closure of the caller panicked
  no_fuel : Reason  -- the bound on loop rounds ran out: not a behaviour of the code

-- A thread over a memory `M`. `act effect next` is one atomic access: it changes the memory by
-- `effect` and goes on with `next`, which may look at the memory before the access. The Boolean is
-- the environment's choice: whether a weak compare-exchange fails spuriously, whether a wait is
-- cut short, whether a closure panics.
pub data Prog (M A : Type 0) : Type 0 where
  ret : A → Prog M A
  act : (Bool → M → M) → (Bool → M → Prog M A) → Prog M A
  halt : Reason → Prog M A

infixl 5 ◌>>=◌ ◌>>◌
unfoldable pub ◌>>=◌ : {M A B : Type 0} → Prog M A → (A → Prog M B) → Prog M B
ret a >>= f = f a
act e k >>= f = act e (λ c m. k c m >>= f)
halt r >>= f = halt r

abbrev pub ◌>>◌ : {M B : Type 0} → Prog M (Unit {0}) → Prog M B → Prog M B
p >> q = p >>= λ _. q

abbrev pub skip : {M : Type 0} → Prog M (Unit {0})
skip = ret tt

-- `assert!(b)`
unfoldable pub assert : {M : Type 0} → Reason → Bool → Prog M (Unit {0})
assert r true = skip
assert r false = halt r

-- `.expect(..)`
unfoldable pub expect : {M A : Type 0} → Reason → Option A → Prog M A
expect r none = halt r
expect r (some a) = ret a

-- One access with its result, which is read off the memory before the access.
unfoldable pub access : {M A : Type 0} → (Bool → M → M) → (Bool → M → A) → Prog M A
access e v = act e (λ c m. ret (v c m))

-- An access that leaves the memory alone.
abbrev pub look : {M A : Type 0} → (M → A) → Prog M A
look f = access (λ c m. m) (λ c m. f m)

-- An access that only writes.
abbrev pub write : {M : Type 0} → (M → M) → Prog M (Unit {0})
write f = access (λ c m. f m) (λ c m. tt)

-- The environment's choice.
abbrev pub choose : {M : Type 0} → Prog M Bool
choose = access (λ c m. m) (λ c m. c)

-- One access of a thread.
pub after : {M A : Type 0} → Bool → M → Prog M A → M
after c m (act e k) = e c m
after c m (ret _) = m
after c m (halt _) = m

pub rest : {M A : Type 0} → Bool → M → Prog M A → Prog M A
rest c m (act e k) = k c m
rest c m (ret a) = ret a
rest c m (halt r) = halt r

-- `count` threads over one memory. A turn names the thread that makes the next access, with the
-- choice; a turn of a thread that is not there does nothing.
pub record System (M A : Type 0) : Type 0 where
  pub count : ℕ
  pub memory : M
  pub thread : ℕ → Prog M A

pub turn : {M A : Type 0} → System M A → ℕ → Bool → System M A
unfolding after rest ◌>>=◌ access assert expect
turn s i c =
    if ltb i s.count
    then record s {
      memory = after c s.memory (s.thread i);
      thread = update s.thread i (rest c s.memory (s.thread i));
    }
    else s

-- The system after a schedule. A schedule is any list of turns, so what holds after every schedule
-- holds in every interleaving.
unfoldable pub run : {M A : Type 0} → System M A → List (ℕ × Bool) → System M A
unfolding turn
run s [] = s
run s ((i, c) ∷ l) = run (turn s i c) l

-- A thread that runs alone until it ends: the memory that it leaves, and how it has ended. No
-- compare-exchange fails spuriously.
unfoldable pub solo : {M A : Type 0} → Prog M A → M → M × (A ⊎ Reason)
solo (ret a) m = (m, inl a)
solo (halt r) m = (m, inr r)
solo (act e k) m = solo (k false m) (e false m)
