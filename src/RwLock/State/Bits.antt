-- ===== src/RwLock/State/Bits.antt =====
-- The flags and the remaining bits of a word, as the masks and the arithmetic of src/rwlock.rs see
-- them.
use usync.Prelude.{◌+◌, ◌^◌, true, false, none, some, if◌then◌else◌, ltb, ◌≡◌, refl, arith}
use usync.RwLock.State.{State, address, minus, add_reader, of_address-address}

-- Subtracting a constant whose flags are all set clears these flags and nothing else: LOCKED,
-- QUEUE_LOCKED, or LOCKED with READING.
pub minus_flags :
    (s : State)
    → (s.locked ≡ true → minus 1 s ≡ record s { locked = false })
      × (s.queue_locked ≡ true → minus 8 s ≡ record s { queue_locked = false })
      × (s.locked ≡ true
          → s.reading ≡ true
          → minus 3 s ≡ record s { locked = false; reading = false })
unfolding minus
minus_flags s = (λ h. ground arith, λ h. ground arith, λ h k. ground arith)

pub minus_locked : (s : State) → s.locked ≡ true → minus 1 s ≡ record s { locked = false }
minus_locked s h = (minus_flags s).0 h

pub minus_queue_locked :
    (s : State) → s.queue_locked ≡ true → minus 8 s ≡ record s { queue_locked = false }
minus_queue_locked s h = (minus_flags s).1 h

-- A reader more, as `checked_add` on the address has it, is counted in the remaining bits and
-- leaves the flags alone; it is refused exactly when the address would leave the 64 bits.
pub add_reader_lem :
    (s : State)
    → add_reader s ≡ (
        if ltb (address s + 16) (2 ^ 64)
        then some (record s { remaining = s.remaining + 1 })
        else none)
unfolding add_reader address
add_reader_lem s =
    let more : State = record s { remaining = s.remaining + 1 } in
    let e : address s + 16 ≡ address more = omega arith in rw (e, of_address-address more) refl
