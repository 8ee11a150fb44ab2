-- ===== src/Once/Spec.antt =====
-- src/once.rs, without contention: what a `Once` is for callers that come one after the other.
use usync.Prelude.{
  ℕ, Bool, Option, none, some, if◌then◌else◌, match_option, List, [], ◌∷◌, ◌⊎◌, inl, inr,
}
use usync.Prog.{ret, solo, ◌>>◌, Reason, poisoned, unwound}
use usync.Shared.{Memory, Counts, Config, count}
use usync.Once.{
  Word, word, OnceState, new, poison, in_progress, done, Code, call_once, call_once_force,
}

-- A call: whether it ignores poisoning, the waiter of its thread, what its closure does to the
-- counts, and whether the closure returns, each for the state that the closure is told.
pub record Call : Type 0 where
  pub force : Bool
  pub me : ℕ
  pub effect : OnceState → Counts → Counts
  pub returns : OnceState → Bool

-- How a call ends: it returns, or panics.
abbrev pub Ending : Type 0
Ending = Unit {0} ⊎ Reason

-- The closure of a call runs, told `s`.
abbrev pub settle : Call → OnceState → Counts → Option (OnceState × Counts × Ending)
settle c s n = some (
  if c.returns s then done else poison,
  c.effect s n,
  if c.returns s then inl tt else inr unwound,
)

-- What a call does; `none` if it waits.
abbrev pub promise : Call → OnceState → Counts → Option (OnceState × Counts × Ending)
promise c new n = settle c new n
promise c poison n = if c.force then settle c poison n else some (poison, n, inr poisoned)
promise c in_progress n = none
promise c done n = some (done, n, inl tt)

-- Any number of calls.
abbrev pub promises : List Call → OnceState → Counts → Option (OnceState × Counts × List Ending)
promises [] s n = some (s, n, [])
promises (c ∷ cs) s n =
    match_option (promise c s n) none
      λ (s', n', e). match_option (promises cs s' n') none λ (s'', n'', es). some (s'', n'', e ∷ es)

-- The code of a call.
unfoldable pub closure_of : Call → OnceState → Code Bool
closure_of c s = do count (c.effect s); ret (c.returns s)

unfoldable pub code_of : Config → Call → Code (Unit {0})
code_of g c =
    if c.force then call_once_force g c.me (closure_of c) else call_once g c.me (closure_of c)

-- Calls one after the other, each on the memory that the one before has left, also if that one
-- has panicked.
unfoldable pub calls : Config → List Call → Memory Word → Memory Word × List Ending
calls g [] m = (m, [])
calls g (c ∷ cs) m =
    let (m', e) = solo (code_of g c) m in let (m'', es) = calls g cs m' in (m'', e ∷ es)

-- The state word of a state, where nobody waits.
abbrev pub word_of : OnceState → Word
word_of new = word 0
word_of in_progress = word 1
word_of poison = word 2
word_of done = word 3
