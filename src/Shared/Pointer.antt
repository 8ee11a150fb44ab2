-- ===== src/Shared/Pointer.antt =====
-- src/shared/strict_provenance.rs: pointers with a provenance, and how their addresses change.
use usync.Prelude.{ℕ, ◌+◌, ◌-◌, ◌%◌, ◌^◌, ◌<◌, if◌then◌else◌, ltb, ◌≡◌, refl, arith}

-- Arithmetic on a `usize`.
abbrev pub wrapping_sub : ℕ → ℕ → ℕ
wrapping_sub a b = if ltb a b then a + 2 ^ 64 - b else a - b

abbrev pub wrapping_add : ℕ → ℕ → ℕ
wrapping_add a b = (a + b) % 2 ^ 64

pub record Pointer : Type 0 where
  pub address : ℕ
  pub provenance : ℕ

-- `invalid_mut`: the cast of an address, which has the provenance 0 here, that of no object
abbrev pub invalid_mut : ℕ → Pointer
invalid_mut addr = record { address = addr; provenance = 0 }

-- `with_address`, as compiled for Miri
unfoldable pub with_address_miri : Pointer → ℕ → Pointer
with_address_miri p new_addr =
    let diff = wrapping_sub new_addr p.address in record p { address = wrapping_add p.address diff }

-- `with_address` elsewhere: `addr as Self`, the same cast
unfoldable pub with_address : Pointer → ℕ → Pointer
with_address p addr = record { address = addr; provenance = 0 }

-- `map_address`, by either of the two
unfoldable pub map_address : (Pointer → ℕ → Pointer) → Pointer → (ℕ → ℕ) → Pointer
map_address with_address p f = with_address p (f p.address)

-- On addresses below 2 ^ 64 the two ways of changing an address come to the same address,
-- wrap-around included. As compiled for Miri the pointer keeps its provenance; elsewhere it becomes
-- the pointer that `invalid_mut` makes of the new address.
pub map_address-with_address :
    (p : Pointer) (f : ℕ → ℕ)
    → p.address < 2 ^ 64
    → f p.address < 2 ^ 64
    → ((map_address with_address_miri p f).address ≡ (map_address with_address p f).address)
      × ((map_address with_address_miri p f).provenance ≡ p.provenance)
      × (map_address with_address p f ≡ invalid_mut (f p.address))
unfolding map_address with_address with_address_miri
map_address-with_address p f h k = (ground arith, refl, refl)
