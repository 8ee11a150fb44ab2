-- ===== src/Once/Alone.antt =====
-- The code of `Once` keeps the promise of the abstract one where callers come one after the other.
use usync.Prelude.{
  map, ◌++◌, sym, subst, ℕ, suc, Bool, true, false, Option, none, some, ◌≡◌, refl, if◌then◌else◌,
  match_option, List, [], ◌∷◌, inl, inr,
}
use usync.Prog.{poisoned, unwound, solo, ◌>>=◌, access, assert}
use usync.Shared.{Memory, Counts, Config}
use usync.Once.{
  init, Word, OnceState, new, poison, in_progress, done, wake_loop, drop_guard, do_call, call_loop,
  call_once_slow, call_once, call_once_force,
}
use usync.Once.Spec.{Call, Ending, promise, promises, closure_of, code_of, calls, word_of}

-- What a run has come to, against what was promised: the word, the counts and how it ended.
abbrev Kept : {A : Type 0} → Memory Word × A → Option (OnceState × Counts × A) → Type 0
Kept (m, e) none = Unit
Kept (m, e) (some (s, n, e')) = (m.word ≡ word_of s) × (m.counts ≡ n) × (e ≡ e')

module _ (x multi_core : Bool) (fuel : ℕ) where
  abbrev pub cfg : Config
  cfg = record { x86 = x; multi_core = multi_core; fuel = suc fuel }

  -- A call at a fresh state, and a forced one at a poisoned state, runs its closure.
  settled-Kept :
      (f b : Bool) (c : Call) (m : Memory Word) (s : OnceState)
      → c.force ≡ f
      → c.returns s ≡ b
      → Kept (solo (code_of cfg c) (record m { word = word_of s })) (promise c s m.counts)
  unfolding code_of closure_of call_once call_once_force call_once_slow call_loop do_call drop_guard
      wake_loop assert solo ◌>>=◌ access
  settled-Kept true true c m new ef eb = rw (ef, solo, ◌>>=◌, eb) (refl, refl, refl)
  settled-Kept true false c m new ef eb = rw (ef, solo, ◌>>=◌, eb) (refl, refl, refl)
  settled-Kept false true c m new ef eb = rw (ef, solo, ◌>>=◌, eb) (refl, refl, refl)
  settled-Kept false false c m new ef eb = rw (ef, solo, ◌>>=◌, eb) (refl, refl, refl)
  settled-Kept true true c m poison ef eb = rw (ef, solo, ◌>>=◌, eb) (refl, refl, refl)
  settled-Kept true false c m poison ef eb = rw (ef, solo, ◌>>=◌, eb) (refl, refl, refl)
  settled-Kept false b c m poison ef eb = rw ef (refl, refl, refl)
  settled-Kept f b c m in_progress ef eb = tt
  settled-Kept true b c m done ef eb = rw ef (refl, refl, refl)
  settled-Kept false b c m done ef eb = rw ef (refl, refl, refl)

  call-Kept :
      (c : Call) (m : Memory Word) (s : OnceState)
      → m.word ≡ word_of s
      → Kept (solo (code_of cfg c) m) (promise c s m.counts)
  call-Kept c m s e =
      let same : m ≡ record m { word = word_of s } = λ i. record m { word = e i } in
      subst (λ (m' : Memory Word). Kept (solo (code_of cfg c) m') (promise c s m.counts)) (sym same)
        (settled-Kept c.force (c.returns s) c m s refl refl)

  -- One call in front of others.
  calls_after-Kept :
      (c : Call) (cs : List Call) (m m' : Memory Word) (e : Ending)
      (q : Option (OnceState × Counts × List Ending))
      → solo (code_of cfg c) m ≡ (m', e)
      → Kept (calls cfg cs m') q
      → Kept (calls cfg (c ∷ cs) m) (match_option q none λ (s'', n'', es). some (s'', n'', e ∷ es))
  unfolding calls
  calls_after-Kept c cs m m' e none first later = tt
  calls_after-Kept c cs m m' e (some (s'', n'', es)) first (w, n, later) =
      rw first (w, n, λ i. e ∷ later i)

  calls_next-Kept :
      (c : Call) (cs : List Call) (m : Memory Word) (p : Option (OnceState × Counts × Ending))
      → Kept (solo (code_of cfg c) m) p
      → ((m' : Memory Word) (s' : OnceState)
          → m'.word ≡ word_of s'
          → Kept (calls cfg cs m') (promises cs s' m'.counts))
      → Kept (calls cfg (c ∷ cs) m) (
          match_option p none λ (s', n', e).
            match_option (promises cs s' n') none λ (s'', n'', es). some (s'', n'', e ∷ es))
  calls_next-Kept c cs m none first later = tt
  calls_next-Kept c cs m (some (s', n', e)) (w, n, ended) later =
      let ran = solo (code_of cfg c) m in
      calls_after-Kept c cs m ran.0 e (promises cs s' n') (λ i. (ran.0, ended i))
        (rw n at (later ran.0 s' w))

  calls-Kept :
      (cs : List Call) (m : Memory Word) (s : OnceState)
      → m.word ≡ word_of s
      → Kept (calls cfg cs m) (promises cs s m.counts)
  unfolding calls
  calls-Kept [] m s e = (e, refl, refl)
  calls-Kept (c ∷ cs) m s e =
      calls_next-Kept c cs m (promise c s m.counts) (call-Kept c m s e) (calls-Kept cs)

  -- Callers that come one after the other, on fuel for one round of each loop, find what the
  -- abstract `Once` promises, if it promises that none of them waits: each call ends as promised,
  -- by returning, by a panic of its closure or refused as poisoned; the closures that run are the
  -- promised ones, in that order and told the promised states; and the word that is left is that
  -- of the promised state.
  pub calls_keep :
      (cs : List Call) (m : Memory Word) (s s' : OnceState) (n' : Counts) (es : List Ending)
      → m.word ≡ word_of s
      → promises cs s m.counts ≡ some (s', n', es)
      → ((calls cfg cs m).0.word ≡ word_of s')
        × ((calls cfg cs m).0.counts ≡ n')
        × ((calls cfg cs m).1 ≡ es)
  calls_keep cs m s s' n' es e promised = rw promised at (calls-Kept cs m s e)

-- None of the calls ignores poisoning.
abbrev pub Unforced : List Call → Type 0
Unforced [] = Unit
Unforced (c ∷ cs) = (c.force ≡ false) × Unforced cs

-- How a call ends, and what it leaves, if its closure returns or not.
abbrev pub after_closure : Bool → OnceState
after_closure returned = if returned then done else poison

abbrev pub closure_ending : Bool → Ending
closure_ending returned = if returned then inl tt else inr unwound

refusals :
    (cs : List Call)
    → Unforced cs
    → (d : Call) → d.force ≡ true
    → (n : Counts)
    → promises (cs ++ (d ∷ [])) poison n
      ≡ some (
        after_closure (d.returns poison),
        d.effect poison n,
        map (λ _. inr poisoned) cs ++ (closure_ending (d.returns poison) ∷ []),
      )
refusals [] h d e n = rw e refl
refusals (c ∷ cs) (ef, h) d e n = rw (ef, refusals cs h d e n) refl

-- A closure that panics poisons a fresh `Once`. Every `call_once` that comes after that, however
-- many do, panics without running its closure, until the first `call_once_force`: its closure runs
-- and is told that the state is poisoned, and if it returns the `Once` is done, else it is poisoned
-- again. All this on fuel for one round of each loop, where callers come one after the other.
pub panic_poisons :
    (x multi_core : Bool) (fuel : ℕ) (m : Memory Word) (c : Call) (cs : List Call) (d : Call)
    → m.word ≡ init
    → c.returns new ≡ false
    → Unforced cs
    → d.force ≡ true
    → let (m', es) = calls (cfg x multi_core fuel) (c ∷ cs ++ (d ∷ [])) m in
      (m'.word ≡ word_of (after_closure (d.returns poison)))
      × (m'.counts ≡ d.effect poison (c.effect new m.counts))
      × (es ≡ inr unwound ∷ map (λ _. inr poisoned) cs ++ (closure_ending (d.returns poison) ∷ []))
panic_poisons x mc f m c cs d fresh panics unforced forced =
    calls_keep x mc f (c ∷ cs ++ (d ∷ [])) m new _ _ _ fresh
      (rw (panics, refusals cs unforced d forced (c.effect new m.counts)) refl)
