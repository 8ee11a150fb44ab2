-- ===== src/RwLock/Trying.antt =====
-- The operations that do not block keep to the roles where nobody waits.
use usync.Prelude.{
  ℕ, zero, suc, ◌+◌, ◌^◌, Bool, true, false, not, Option, none, some, ◌≡◌, refl, if◌then◌else◌,
  match_option, ltb, Bool-cases, inl, inr, arith,
}
use usync.Prog.{ret, ◌>>=◌}
use usync.Prog.Safe.{Safe}
use usync.Shared.{Counts, Config, load, cas_weak}
use usync.Shared.Protocol.{after, load-Keeps, if-Keeps, fetch-Keeps, cas_weak-Keeps, cas-Keeps}
use usync.RwLock.State.{State, same, add_reader, address}
use usync.RwLock.State.Bits.{add_reader_lem}
use usync.RwLock.Lock.{
  may_read, try_lock_shared_assuming, try_lock_shared_fast, try_lock_shared_slow, try_lock_shared,
  try_lock_exclusive_fast,
}
use usync.RwLock.Wake.{Code}
use usync.RwLock.Roles.{Role, IsWord, Knows, Step, Step-refl, Ok, shared_lock}

abbrev pub outside : Role
outside = record { writes = 0; reads = 0; writing = 0; reading = 0 }

abbrev pub writer : Role
writer = record outside { writes = 1 }

abbrev pub reader : Role
reader = record outside { reads = 1 }

-- What is known after an attempt to write, and to read.
abbrev pub Wrote : Bool → Role → Type 0
Wrote b r = r ≡ (if b then writer else outside)

abbrev pub Read : Bool → Role → Type 0
Read b r = r ≡ (if b then reader else outside)

abbrev pub EndsIn : Role → Unit {0} → Role → Type 0
EndsIn r _ r' = r' ≡ r

-- The exclusive attempt on x86 sets LOCKED and looks at what it was.
set_Step :
    (s : State) (c : Counts)
    → Knows outside s
    → Step outside s c (if s.locked then outside else writer) (record s { locked = true }) c
set_Step s c k = ground (arith, k.word.queued, k.word.queue_locked, k.word.readers, k.word.held)

pub try_lock_exclusive_fast-Ok : (g : Config) → Ok Wrote (try_lock_exclusive_fast g) outside
unfolding try_lock_exclusive_fast
try_lock_exclusive_fast-Ok g =
    if-Keeps shared_lock g.x86
      (λ _.
        fetch-Keeps shared_lock _ _ λ s c k f.
          (if s.locked then outside else writer, set_Step s c k, Safe.ret (ground arith)))
      λ _.
        cas-Keeps shared_lock _ _ _ (λ c k f. (writer, ground arith, Safe.ret {a = true} refl))
          λ s c k f. (outside, Step-refl outside s c k f, Safe.ret {a = false} refl)

-- What is known after one attempt to read: refused, taken, or another word found.
abbrev Tried : Option (Option State) → Role → Type 0
Tried none r = r ≡ outside
Tried (some none) r = r ≡ reader
Tried (some (some s)) r = (r ≡ outside) × IsWord s

-- A reader more.
module _ (s : State) where
  assuming-Ok :
      (o : Option State)
      → IsWord s
      → may_read s ≡ true
      → ((t : State) → o ≡ some t → t ≡ record s { remaining = s.remaining + 1 })
      → Ok Tried
          (match_option o (ret none) λ with_reader.
            cas_weak same s (record with_reader { locked = true; reading = true }) >>= λ e.
            ret (some e))
          outside
  assuming-Ok none w may counted = Safe.ret refl
  assuming-Ok (some t) w may counted = rw (counted t refl) (
      cas_weak-Keeps shared_lock _ _ _
        (λ c k f.
          (reader, ground (arith, may, w.queued, w.queue_locked, k.word.readers), Safe.ret refl))
        λ s c k f. (outside, Step-refl outside s c k f, Safe.ret (refl, k.word)))

  added : (t : State) → add_reader s ≡ some t → t ≡ record s { remaining = s.remaining + 1 }
  added t e = elim (Bool-cases (ltb (address s + 16) (2 ^ 64))) [
    | inl fits ↦ let e' = rw (add_reader_lem s, fits) at e in cc
    | inr full ↦ let e' = rw (add_reader_lem s, full) at e in cc
  ]

  try_lock_shared_assuming-Ok : IsWord s → Ok Tried (try_lock_shared_assuming s) outside
  unfolding try_lock_shared_assuming
  try_lock_shared_assuming-Ok w =
      if-Keeps shared_lock (not (may_read s)) (λ _. Safe.ret refl)
        λ may. assuming-Ok (add_reader s) w (ground (arith, may)) added

-- What follows an attempt.
got-Ok :
    (o : Option (Option State)) (f : State → Code Bool) (r : Role)
    → Tried o r
    → ((s : State) → IsWord s → Ok Read (f s) outside)
    → Ok Read (match_option o (ret false) λ e. match_option e (ret true) f) r
got-Ok none f r e next = Safe.ret e
got-Ok (some none) f r e next = Safe.ret e
got-Ok (some (some s)) f r (e, w) next = rw e (next s w)

try_lock_shared_fast-Ok : Ok Read try_lock_shared_fast outside
unfolding try_lock_shared_fast
try_lock_shared_fast-Ok = load-Keeps shared_lock _ λ s k.
    after shared_lock _ (try_lock_shared_assuming-Ok s k.word)
      λ o r e. got-Ok o (λ _. ret false) r e λ _ _. Safe.ret refl

module _ (g : Config) (self me : ℕ) where
  try_lock_shared_slow-Ok :
      (f : ℕ) (s : State) → IsWord s → Ok Read (try_lock_shared_slow f s) outside
  unfolding try_lock_shared_slow
  try_lock_shared_slow-Ok zero s w = Safe.halt tt
  try_lock_shared_slow-Ok (suc f) s w =
      after shared_lock _ (try_lock_shared_assuming-Ok s w)
        λ o r e. got-Ok o (try_lock_shared_slow f) r e (try_lock_shared_slow-Ok f)

  again-Ok :
      (got : Bool) (r : Role)
      → Read got r
      → Ok Read (if got then ret true else load >>= λ s. try_lock_shared_slow g.fuel s) r
  again-Ok true r e = Safe.ret e
  again-Ok false r e =
      rw e (load-Keeps shared_lock _ λ s k. try_lock_shared_slow-Ok g.fuel s k.word)

  pub try_lock_shared-Ok : Ok Read (try_lock_shared g self me) outside
  unfolding try_lock_shared
  try_lock_shared-Ok = after shared_lock _ try_lock_shared_fast-Ok λ got r e. again-Ok got r e
