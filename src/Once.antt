-- ===== src/Once.antt =====
-- src/once.rs: one-time initialisation.
pub mod Roles
pub mod Call
pub mod Waking
pub mod Client
pub mod Exclusion
pub mod Spec
pub mod Alone
use usync.Prelude.{
  ℕ, zero, suc, ◌+◌, ◌*◌, ◌%◌, Bool, true, false, ◌&&◌, ◌||◌, not, Option, none, some, ◌≡◌, ◌==◌,
  if◌then◌else◌, match_option, arith,
}
use usync.Prog.{
  Prog, ret, halt, skip, assert, look, write, choose, ◌>>=◌, ◌>>◌, bad_word, broken_queue, poisoned,
  unwound, no_fuel,
}
use usync.Shared.{Waiter, new_waiter, Memory, read, modify, load, fetch, cas_weak, Config, non_null}
use usync.Shared.Spin.{SpinWait, fresh, try_yield_now}
use usync.Shared.Parker.{park}
use usync.Shared.Parker

-- The state word: the four low bits, of which the code uses UNINIT = 0, CALLING = 1, POISONED = 2
-- and COMPLETED = 3, and the waiter at the head of the queue.
pub record Word : Type 0 where
  pub tag : ℕ
  pub head : ℕ

abbrev pub word : ℕ → Word
word tag = record { tag = tag; head = 0 }

abbrev pub same : Word → Word → Bool
same v w = v.tag == w.tag && v.head == w.head

pub same_eq : (v w : Word) → same v w ≡ true → v ≡ w
same_eq v w h = ground arith

-- `state.address() == n` for a state n without a queue.
abbrev pub is : ℕ → Word → Bool
is n w = same w (word n)

pub data OnceState : Type 0 where
  new : OnceState
  poison : OnceState
  in_progress : OnceState
  done : OnceState

abbrev pub Code : Type 0 → Type 0
Code A = Prog (Memory Word) A

-- `Once::new`
abbrev pub init : Word
init = word 0

-- `match state.address() & !Waiter::MASK { .. }`
unfoldable pub once_state : Word → Option OnceState
once_state w =
    if w.tag == 0
    then some new
    else if w.tag == 1
    then some in_progress
    else if w.tag == 2
    then some poison
    else if w.tag == 3
    then some done
    else none

-- `Once::state`
unfoldable pub state : Code OnceState
state = do w ← load; match_option (once_state w) (halt bad_word) λ s. ret s

module _ (g : Config) (me : ℕ) where
  -- The loop of `StateGuard::drop`.
  unfoldable pub wake_loop : ℕ → Option ℕ → Code (Unit {0})
  wake_loop zero waiters = halt no_fuel
  wake_loop (suc f) waiters =
      match_option waiters skip
        λ w. do next ← read w (λ w. w.next); Parker.unpark g w; wake_loop f next

  -- `StateGuard::drop`
  unfoldable pub drop_guard : Word → Code (Unit {0})
  drop_guard reset_to = do
    old ← fetch (λ _. reset_to)
    assert bad_word (old.tag % 4 == 1)
    wake_loop g.fuel (non_null old.head)

  -- `do_call`, with a closure that answers whether it returned; if it did not, it panicked, and the
  -- guard is dropped while unwinding, as it is after the `unreachable!` of the match on the state.
  unfoldable pub do_call : Word → (OnceState → Code Bool) → Code (Unit {0})
  do_call old f = do
    if is 0 old || is 2 old
        then (do
          returned ← f (if is 0 old then new else poison)
          drop_guard (if returned then word 3 else word 2)
          if returned then skip else halt unwound)
        else do drop_guard (word 2); halt bad_word

  -- The round of `call_once_slow` that queues the waiter: the word to go on with.
  unfoldable pub queue_up : Word → Code Word
  queue_up w = do
    modify me (λ x. record x { next = non_null w.head })
    e ← cas_weak same w (record { tag = 1; head = me })
    match_option e (do woken ← park g me none; assert broken_queue woken; w' ← load; ret w')
        λ w'. ret w'

  -- The loop of `call_once_slow`.
  unfoldable pub call_loop : ℕ → Bool → (OnceState → Code Bool) → Word → SpinWait → Code (Unit {0})
  call_loop zero ignore_poison f w spin = halt no_fuel
  call_loop (suc n) ignore_poison f w spin =
      if is 3 w
      then skip
      else if is 2 w && not ignore_poison
      then halt poisoned
      else if w.tag == 1
      then (if w.head == 0 && (try_yield_now g.multi_core spin).1
          then (do w' ← load; call_loop n ignore_poison f w' (try_yield_now g.multi_core spin).0)
          else do
            w' ← queue_up w
            call_loop n ignore_poison f w'
                (if w.head == 0 then (try_yield_now g.multi_core spin).0 else spin))
      else do
        e ← cas_weak same w (word 1)
        match_option e (do_call w f) λ w'. call_loop n ignore_poison f w' spin

  -- `call_once_slow`
  unfoldable pub call_once_slow : Bool → (OnceState → Code Bool) → Code (Unit {0})
  call_once_slow ignore_poison f = do
    modify me (λ _. new_waiter)
    w ← load
    call_loop g.fuel ignore_poison f w fresh

  -- `call_once`, and `call_once_force`, which ignores that the state is poisoned.
  unfoldable pub call_once : (OnceState → Code Bool) → Code (Unit {0})
  call_once f = do w ← load; if is 3 w then skip else call_once_slow false f

  unfoldable pub call_once_force : (OnceState → Code Bool) → Code (Unit {0})
  call_once_force f = do w ← load; if is 3 w then skip else call_once_slow true f
