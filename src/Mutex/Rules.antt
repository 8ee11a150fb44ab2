-- ===== src/Mutex/Rules.antt =====
-- The rules of the protocol for the accesses to the lock's word, which leave the counts alone.
use usync.Prelude.{◌≤◌, Option, none, some, ◌≡◌, arith}
use usync.Prog.{Prog, ◌>>=◌}
use usync.Shared.{Memory, Counts, cas_weak, cas, fetch}
use usync.Shared.Protocol.{fetch-Keeps, cas_weak-Keeps, cas-Keeps}
use usync.RwLock.State.{State, same}
use usync.Mutex.Roles.{Role, Knows, Shift, Fits, Step, Step-refl, Ok, mutex}

-- A change of the word alone.
Shift-Step :
    (r r' : Role) (s s' : State) (c : Counts)
    → r'.within ≡ r.within
    → Shift r s r' s'
    → Step r s c r' s' c
Shift-Step r r' s s' c e sh = record { word = sh; inside = omega arith }

-- What is known after a shift.
pub Shift-Knows : {r r' : Role} {s s' : State} → Knows r s → Shift r s r' s' → Knows r' s'
Shift-Knows k sh = record {
  holds = omega (arith, k.holds, sh.holds);
  queue = omega (arith, k.queue, sh.queue);
  no_reader = sh.no_reader;
  queued = sh.queued;
}

module _ {A : Type 0} {Q : A → Role → Type 0} {r : Role} where
  pub fetch-Ok :
      (g : State → State) (f : State → Prog (Memory State) A)
      → ((s : State)
          → Knows r s
          → r.within ≤ r.holds
          → (r' : Role) × (r'.within ≡ r.within) × Shift r s r' (g s) × Ok Q (f s) r')
      → Ok Q (fetch g >>= f) r
  fetch-Ok g f next =
      fetch-Keeps mutex g f λ s c k w.
        let (r', e, sh, ok) = next s k w.within in (r', Shift-Step r r' s (g s) c e sh, ok)

  module _ (old new : State) (f : Option State → Prog (Memory State) A)
      (win : Knows r old
        → r.within ≤ r.holds
        → (r' : Role) × (r'.within ≡ r.within) × Shift r old r' new × Ok Q (f none) r')
      (lose : (s : State) → Knows r s → Ok Q (f (some s)) r) where
    won :
        (c : Counts)
        → Knows r old
        → Fits r c
        → (r' : Role) × Step r old c r' new c × Ok Q (f none) r'
    won c k fits =
        let (r', e, sh, ok) = win k fits.within in (r', Shift-Step r r' old new c e sh, ok)

    lost :
        (s : State) (c : Counts)
        → Knows r s
        → Fits r c
        → (r' : Role) × Step r s c r' s c × Ok Q (f (some s)) r'
    lost s c k fits = (r, Step-refl r s c k fits, lose s k)

    pub cas_weak-Ok : Ok Q (cas_weak same old new >>= f) r
    cas_weak-Ok = cas_weak-Keeps mutex old new f won lost

    pub cas-Ok : Ok Q (cas same old new >>= f) r
    cas-Ok = cas-Keeps mutex old new f won lost
