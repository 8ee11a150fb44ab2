-- ===== src/Shared/Spin.antt =====
-- src/shared/spin.rs: bounded spinning, and the cached number of cores.
use usync.Prelude.{
  ℕ, zero, suc, ◌+◌, ◌-◌, ◌%◌, ◌^◌, ◌<◌, min, Bool, true, false, Option, none, some, ◌≡◌, refl,
  if◌then◌else◌, leb, ltb, ◌==◌, arith, not, ◌≢◌,
}

pub record SpinWait : Type 0 where
  pub counter : ℕ

-- `SpinWait::default()`
abbrev pub fresh : SpinWait
fresh = record { counter = 0 }

-- One call, with its result. `spin_loop()` changes nothing.
unfoldable pub try_yield_now : Bool → SpinWait → SpinWait × Bool
try_yield_now multi_core s =
    if not multi_core
    then (s, false)
    else if leb 100 s.counter
    then (s, false)
    else (record { counter = s.counter + 1 }, true)

-- One call, with the number of rounds of its loop of `spin_loop()`.
unfoldable pub yield_now : Bool → SpinWait → SpinWait × ℕ
yield_now multi_core s =
    if not multi_core
    then (s, 0)
    else let counter = (s.counter + 1) % 2 ^ 64 in (record { counter = counter }, 2 ^ min counter 5)

-- `available_parallelism().ok().or(NonZeroUsize::new(1)).unwrap()`; the answer is stored in the
-- cache, which is returned with it.
num_cpus_slow : Option ℕ → ℕ × ℕ
num_cpus_slow none = (1, 1)
num_cpus_slow (some n) = (n, n)

-- `cached` is NUM_CPUS, 0 as long as it is not known.
pub num_cpus : (available : Option ℕ) (cached : ℕ) → ℕ × ℕ
unfolding num_cpus_slow
num_cpus available cached = if cached == 0 then num_cpus_slow available else (cached, cached)

unfoldable pub is_multi_core : (available : Option ℕ) (cached : ℕ) → Bool
unfolding num_cpus
is_multi_core available cached = ltb 1 (num_cpus available cached).0

-- How often a caller that stops at the first refusal goes round, of at most `n` rounds.
unfoldable pub spins : Bool → ℕ → SpinWait → ℕ
unfolding try_yield_now
spins multi_core zero s = 0
spins multi_core (suc n) s =
    let later = spins multi_core n (try_yield_now multi_core s).0 in
    if (try_yield_now multi_core s).1 then suc later else 0

-- However long a caller goes on, `try_yield_now` lets it spin for as many rounds as are left up to
-- 100, and for none on a single core.
pub spins-bound :
    (multi_core : Bool) (n : ℕ) (s : SpinWait)
    → spins multi_core n s ≡ (if multi_core then min n (100 - s.counter) else 0)
unfolding spins
spins-bound true zero s = omega arith
spins-bound false zero s = refl
spins-bound false (suc n) s = refl
spins-bound true (suc n) s = ground (arith, spins-bound true n (record { counter = s.counter + 1 }))

-- Where `available_parallelism` never answers 0, the number of cores is never 0; it is the cached one
-- once there is one; it is what is cached afterwards; and a second call answers the same and leaves the
-- same in the cache, whatever `available_parallelism` would answer by then.
pub num_cpus_lem :
    (available later : Option ℕ) (cached : ℕ)
    → ((n : ℕ) → available ≡ some n → 0 < n)
    → (0 < (num_cpus available cached).0)
      × (cached ≢ 0 → (num_cpus available cached).0 ≡ cached)
      × ((num_cpus available cached).1 ≡ (num_cpus available cached).0)
      × (num_cpus later (num_cpus available cached).1 ≡ num_cpus available cached)
unfolding num_cpus
num_cpus_lem none later cached pos = ground arith
num_cpus_lem (some n) later cached pos = ground (arith, pos n refl)
