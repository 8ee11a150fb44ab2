-- ===== src/Shared/Parker.antt =====
-- src/shared/event.rs and src/shared/parker.rs: how a thread blocks on its waiter and is woken up.
-- `me` is the waiter whose parker it is; the event lives on the stack of the thread that parks.
pub mod Neutral
pub mod Still
pub mod Roles
pub mod Rules
pub mod Sleeping
pub mod Blocking
pub mod Waking
pub mod Woken
pub mod Lasts
pub mod Client
pub mod Returning
pub mod Threads
pub mod Wakeup
use usync.Prelude.{
  ℕ, zero, suc, ◌+◌, ◌-◌, ◌||◌, Bool, true, false, Option, none, some, if◌then◌else◌, match_option,
  leb, not, ◌≡◌, refl,
}
use usync.Prog.{
  Prog, ret, access, halt, look, write, assert, skip, ◌>>=◌, ◌>>◌, broken_queue, no_fuel,
}
use usync.Shared.{
  EventPtr, null, notified, registered, Event, new_event, Waiter, Memory, with_waiter, read, modify,
  Config,
}
use usync.Shared.Spin.{SpinWait, fresh, try_yield_now}

abbrev is_notified : EventPtr → Bool
is_notified notified = true
is_notified _ = false

abbrev is_null : EventPtr → Bool
is_null null = true
is_null _ = false

abbrev is_registered : EventPtr → Bool
is_registered registered = true
is_registered _ = false

-- `timeout.checked_sub(elapsed)`
abbrev checked_sub : ℕ → ℕ → Option ℕ
checked_sub a b = if leb b a then some (a - b) else none

-- `started.unwrap_or_else(|| now)`
abbrev first : ℕ → Option ℕ → ℕ
first now none = now
first now (some t) = t

module _ {S : Type 0} (g : Config) (me : ℕ) where
  abbrev set_event : (Event → Event) → Prog (Memory S) (Unit {0})
  set_event f = modify me (λ w. record w { event = f w.event })

  -- The access to the parker's `AtomicPtr`: the old pointer is returned.
  abbrev swap_event : (EventPtr → EventPtr) → Prog (Memory S) EventPtr
  swap_event f =
      access (λ c. with_waiter me (λ w. record w { parker = f w.parker }))
        (λ c m. (m.heap me).parker)

  -- `thread::park` and `thread::park_timeout`, of the standard library: they use up the token, block
  -- as long as there is none, and may return at any time all the same. That, and the end of a
  -- timeout, is the environment's choice. A turn of a blocked thread changes nothing.
  thread_park : ℕ → Prog (Memory S) (Unit {0})
  thread_park zero = halt no_fuel
  thread_park (suc f) = do
    returns ←
        access (λ c. with_waiter me (λ w. record w { event = record w.event { token = false } }))
          (λ c m. (m.heap me).event.token || c)
    if returns then skip else thread_park f

  -- `Event::wait`
  pub event_wait : ℕ → Option ℕ → Option ℕ → Prog (Memory S) Bool
  unfolding thread_park
  event_wait zero timeout started = halt no_fuel
  event_wait (suc f) timeout started = do
    is_set ← read me (λ w. w.event.is_set)
    if is_set
        then ret true
        else match_option timeout (do thread_park f; event_wait f none started)
            λ limit. do
              now ← look (λ m. m.clock)
              let start = first now started
              match_option (checked_sub limit (now - start)) (ret false)
                  λ until_timeout. do thread_park f; event_wait f (some limit) (some start)

  -- `Event::set`
  event_set : Prog (Memory S) (Unit {0})
  event_set = do
    thread ← read me (λ w. w.event.has_thread)
    set_event (λ e. record e { has_thread = false })
    assert broken_queue thread
    set_event (λ e. record e { is_set = true })
    set_event (λ e. record e { token = true })

  pub park_complete : EventPtr → Prog (Memory S) Bool
  park_complete event = do
    assert broken_queue (is_notified event)
    modify me (λ w. record w { parker = null })
    ret true

  -- `compare_exchange` on the parker's pointer, from null to the event.
  register : Prog (Memory S) EventPtr
  register = swap_event (λ p. if is_null p then registered else p)

  -- and back, after a timeout
  unregister : Prog (Memory S) EventPtr
  unregister = swap_event (λ p. if is_registered p then null else p)

  -- `Parker::park_slow`, with `Event::with`
  park_slow : Option ℕ → Prog (Memory S) Bool
  unfolding event_wait park_complete register unregister
  park_slow timeout = do
    set_event (λ e. record new_event { token = e.token })
    set_event (λ e. record e { has_thread = true })
    event ← register
    if not (is_null event) then park_complete event else do
      was_set ← event_wait g.fuel timeout none
      if was_set then (do event ← swap_event (λ p. p); park_complete event) else do
        event ← unregister
        if is_registered event then ret false else do
          woken ← event_wait g.fuel none none
          assert broken_queue woken
          event ← swap_event (λ p. p)
          park_complete event

  -- The loop of `Parker::park`.
  park_spin : ℕ → Option ℕ → SpinWait → Prog (Memory S) Bool
  unfolding park_slow park_complete try_yield_now
  park_spin zero timeout spin = halt no_fuel
  park_spin (suc f) timeout spin =
      let (spin', yielded) = try_yield_now g.multi_core spin in
      if not yielded then park_slow timeout else do
        event ← swap_event (λ p. p)
        if is_notified event then park_complete event else park_spin f timeout spin'

  -- `Parker::park`. The loop ends after 101 rounds at the latest.
  unfoldable pub park : Option ℕ → Prog (Memory S) Bool
  unfolding park_spin
  park timeout = park_spin 101 timeout fresh

  -- `Parker::unpark`
  unfoldable pub unpark : Prog (Memory S) (Unit {0})
  unfolding event_set
  unpark = do
    event ← swap_event (λ _. notified)
    if is_null event then skip else do assert broken_queue (not (is_notified event)); event_set
