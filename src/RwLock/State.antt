-- ===== src/RwLock/State.antt =====
-- The state word of the lock: four flags in the low bits, and in the remaining bits the count of
-- readers or the number of the waiter at the head of the queue.
pub mod Bits
use usync.Prelude.{
  ℕ, zero, suc, ◌+◌, ◌-◌, ◌*◌, ◌/◌, ◌%◌, ◌^◌, Bool, true, false, ◌&&◌, not, Option, none, some,
  if◌then◌else◌, bit, bool_eq, bool_eq_iff, ◌==◌, ltb, ◌≡◌, refl, arith,
}
use usync.Shared.Pointer.{wrapping_sub}

pub record State : Type 0 where
  pub locked : Bool
  pub reading : Bool
  pub queued : Bool
  pub queue_locked : Bool
  pub remaining : ℕ

-- `state.address()`: LOCKED = 1, READING = 2, QUEUED = 4, QUEUE_LOCKED = 8, READER_SHIFT = 4.
unfoldable pub address : State → ℕ
address s =
    bit s.locked + 2 * bit s.reading + 4 * bit s.queued + 8 * bit s.queue_locked + 16 * s.remaining

-- The word with a given address: each flag is read by its mask, the rest by the shift.
unfoldable pub of_address : ℕ → State
of_address n = record {
  locked = n % 2 == 1;
  reading = n / 2 % 2 == 1;
  queued = n / 4 % 2 == 1;
  queue_locked = n / 8 % 2 == 1;
  remaining = n / 16;
}

-- UNLOCKED, LOCKED and SINGLE_READER
abbrev pub unlocked : State
unlocked = record {
  locked = false;
  reading = false;
  queued = false;
  queue_locked = false;
  remaining = 0;
}

abbrev pub write_locked : State
write_locked = record unlocked { locked = true }

abbrev pub single_reader : State
single_reader = record unlocked { locked = true; reading = true; remaining = 1 }

-- Two words are the same if all their bits are.
abbrev pub same : State → State → Bool
same s t =
    bool_eq s.locked t.locked
    && bool_eq s.reading t.reading
    && bool_eq s.queued t.queued
    && bool_eq s.queue_locked t.queue_locked
    && s.remaining == t.remaining

-- `fetch_sub` of a constant, on the word.
unfoldable pub minus : ℕ → State → State
unfolding address of_address
minus n s = of_address (wrapping_sub (address s) n)

-- `state.address().checked_add(1 << READER_SHIFT)`
unfoldable pub add_reader : State → Option State
unfolding address of_address
add_reader s = if ltb (address s + 16) (2 ^ 64) then some (of_address (address s + 16)) else none

pub same_eq : (s t : State) → same s t ≡ true → s ≡ t
same_eq s t h = ground arith

-- A word is that of its address.
pub of_address-address : (s : State) → of_address (address s) ≡ s
unfolding address of_address
of_address-address s = ground arith
