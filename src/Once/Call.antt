-- ===== src/Once/Call.antt =====
-- The code of `Once` keeps to the roles.
use usync.Prelude.{
  ℕ, zero, suc, Bool, true, false, ◌&&◌, ◌||◌, not, Option, none, ◌≡◌, refl, ◌==◌, if◌then◌else◌,
  arith,
}
use usync.Prog.{skip, halt, ◌>>=◌, ◌>>◌, unwound}
use usync.Prog.Safe.{Safe}
use usync.Shared.{Counts, Config, load}
use usync.Shared.Spin.{SpinWait, fresh, try_yield_now}
use usync.Shared.Neutral.{Neutral, access-Neutral, bind-Neutral, option-Neutral}
use usync.Shared.Parker.Neutral.{park-Neutral, unpark-Neutral}
use usync.Shared.Protocol.{
  after, neutral, neutral_alone, load-Step, quiet, if-Keeps, assert-Keeps, may-Keep, fetch-Keeps,
  cas_weak-Keeps,
}
use usync.Once.{
  Word, word, is, OnceState, Code, wake_loop, drop_guard, do_call, queue_up, call_loop,
  call_once_slow, call_once, call_once_force,
}
use usync.Once.Roles.{Role, idle, IsWord, Knows, Step, Ok, once}

abbrev pub caller : Role
caller = record idle { calling = 1 }

abbrev pub running : Role
running = record caller { within = 1 }

abbrev pub ended : Role
ended = record caller { ended = 1 }

abbrev pub seen : Role
seen = record idle { saw = 1 }

-- What is asked of a closure: it is called by the caller, and a return is counted as finished.
abbrev pub IsClosure : (OnceState → Code Bool) → Type 0
IsClosure f = (s : OnceState) → Ok (λ b r. r ≡ (if b then ended else caller)) (f s) caller

-- What is known after a call.
abbrev pub Done : Unit {0} → Role → Type 0
Done _ r = r ≡ seen

-- The role of a thread that has just read a word.
abbrev pub reader : Word → Role
reader w = if w.tag == 3 then seen else idle

read-Step : (w : Word) (c : Counts) → Knows idle w → Step idle w c (reader w) w c
read-Step w c k = record {
  calling = ground arith;
  inside = ground arith;
  finished = ground arith;
  owned = ground arith;
  saw = ground arith;
  final = omega arith;
  word = k.word;
}

module _ (g : Config) (me : ℕ) where
  wake_loop-Neutral : (n : ℕ) (o : Option ℕ) → Neutral (wake_loop g me n o)
  unfolding wake_loop
  wake_loop-Neutral zero o = Neutral.halt tt
  wake_loop-Neutral (suc n) o = option-Neutral o (Neutral.ret tt) λ w.
      access-Neutral _ _ _ (λ c m. (refl, refl))
        λ next. bind-Neutral _ (unpark-Neutral g w) λ _. wake_loop-Neutral n next

  -- The guard gives the call up, for COMPLETED or for POISONED.
  drop_guard-Ok :
      (b : Bool)
      → Ok
          (λ _ r. r ≡ (if b then seen else idle))
          (drop_guard g me (if b then word 3 else word 2))
          (if b then ended else caller)
  unfolding drop_guard
  drop_guard-Ok true = fetch-Keeps once _ _ λ w c k f. (
    seen,
    ground (arith, k.calling),
    assert-Keeps once _ _ _ (ground (arith, k.calling))
        (neutral_alone once (wake_loop-Neutral g.fuel _) λ _. refl),
  )
  drop_guard-Ok false = fetch-Keeps once _ _ λ w c k f. (
    idle,
    ground (arith, k.calling),
    assert-Keeps once _ _ _ (ground (arith, k.calling))
        (neutral_alone once (wake_loop-Neutral g.fuel _) λ _. refl),
  )

  module _ (f : OnceState → Code Bool) (closure : IsClosure f) where
    returned-Ok :
        (b : Bool)
        → Ok Done
            (drop_guard g me (if b then word 3 else word 2) >> (if b then skip else halt unwound))
            (if b then ended else caller)
    returned-Ok true = after once _ (drop_guard-Ok true) λ _ r e. Safe.ret e
    returned-Ok false = after once _ (drop_guard-Ok false) λ _ r e. Safe.halt tt

    do_call-Ok : (w : Word) → (is 0 w || is 2 w) ≡ true → Ok Done (do_call g me w f) caller
    unfolding do_call
    do_call-Ok w fit =
        if-Keeps once (is 0 w || is 2 w)
          (λ _. after once _ (closure _) λ b r e. rw e (returned-Ok b))
          λ unfit. absurd (ground (arith, fit, unfit))

  -- A word that was just read.
  abbrev Read : Word → Role → Type 0
  Read w r = (r ≡ reader w) × IsWord w

  queue_up-Ok : (w : Word) → w.tag ≡ 1 → Ok Read (queue_up g me w) idle
  unfolding queue_up
  queue_up-Ok w calls =
      quiet once _ _ _ (λ c m. (refl, refl))
        λ _.
          cas_weak-Keeps once _ _ _
            (λ c k f. (
              idle,
              ground (arith, calls),
              neutral once _ (park-Neutral g me none) λ woken. may-Keep once _ _ _ tt λ _.
                  load-Step once _ λ s c k f. (reader s, read-Step s c k, Safe.ret (refl, k.word)),
            ))
            λ s c k f. (reader s, read-Step s c k, Safe.ret (refl, k.word))

  module _ (ignore_poison : Bool) (f : OnceState → Code Bool) (closure : IsClosure f) where
    call_loop-Ok :
        (n : ℕ) (w : Word) (spin : SpinWait)
        → IsWord w
        → Ok Done (call_loop g me n ignore_poison f w spin) (reader w)
    unfolding call_loop
    call_loop-Ok zero w spin ok = Safe.halt tt
    call_loop-Ok (suc n) w spin ok =
        if-Keeps once (is 3 w) (λ h. Safe.ret (ground (arith, h)))
          λ not_3.
            let e : reader w ≡ idle = ground (arith, ok.head) in
            rw e (
              if-Keeps once (is 2 w && not ignore_poison) (λ _. Safe.halt tt)
                λ _.
                  if-Keeps once (w.tag == 1)
                    (λ calls.
                      if-Keeps once (w.head == 0 && (try_yield_now g.multi_core spin).1)
                        (λ _.
                          load-Step once _
                            λ s c k f. (reader s, read-Step s c k, call_loop-Ok n s _ k.word))
                        λ _.
                          after once _ (queue_up-Ok w (ground arith))
                            λ w' r (e', ok'). rw e' (call_loop-Ok n w' _ ok'))
                    λ idle_word.
                      cas_weak-Keeps once _ _ _
                        (λ c k f'. (
                          caller,
                          ground (arith, k.calling),
                          do_call-Ok f closure w (ground (arith, ok.head, ok.tag)),
                        ))
                        λ s c k f'. (reader s, read-Step s c k, call_loop-Ok n s _ k.word))

    call_once_slow-Ok : Ok Done (call_once_slow g me ignore_poison f) idle
    unfolding call_once_slow
    call_once_slow-Ok =
        quiet once _ _ _ (λ c m. (refl, refl))
          λ _.
            load-Step once _
              λ s c k f'. (reader s, read-Step s c k, call_loop-Ok g.fuel s fresh k.word)

    -- Both entry points have this form.
    pub call-Ok :
        Ok Done (load >>= λ w. if is 3 w then skip else call_once_slow g me ignore_poison f) idle
    call-Ok = load-Step once _ λ s c k f'. (
      reader s,
      read-Step s c k,
      if-Keeps once (is 3 s) (λ h. Safe.ret (ground (arith, h)))
          λ h.
            let e : (s.tag == 3) ≡ false = ground (arith, h, k.word.head) in rw e call_once_slow-Ok,
    )

  -- Whatever the other threads do meanwhile within the protocol of the `Once`, and for every closure
  -- that keeps to it, a `call_once` that returns has seen the state COMPLETED, and no assertion on
  -- the word fails on the way.
  pub call_once-Ok : (f : OnceState → Code Bool) → IsClosure f → Ok Done (call_once g me f) idle
  unfolding call_once
  call_once-Ok f closure = call-Ok false f closure

  -- Whatever the other threads do meanwhile within the protocol of the `Once`, and for every
  -- closure that keeps to it, a `call_once_force` that returns has seen the state COMPLETED, and
  -- no assertion on the word fails on the way.
  pub call_once_force-Ok :
      (f : OnceState → Code Bool) → IsClosure f → Ok Done (call_once_force g me f) idle
  unfolding call_once_force
  call_once_force-Ok f closure = call-Ok true f closure
