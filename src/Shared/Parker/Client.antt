-- ===== src/Shared/Parker/Client.antt =====
-- A thread that parks, one that unparks it, and one that lets the time go by.
use usync.Prelude.{ℕ, zero, suc, ◌+◌, Bool, true, Option}
use usync.Prog.{Prog, ret, write, ◌>>=◌, ◌>>◌, System}
use usync.Shared.{Memory, count, Config}
use usync.Shared.Parker.{park, unpark}

unfoldable pub parker : {S : Type 0} → Config → (me : ℕ) → Option ℕ → Prog (Memory S) Bool
parker g me timeout = do woken ← park g me timeout; ret woken

-- It counts itself before it unparks, and when it has done so.
unfoldable pub unparker : {S : Type 0} → Config → (me : ℕ) → Prog (Memory S) Bool
unparker g me = do
  count (λ c. record c { inside = c.inside + 1 })
  unpark g me
  count (λ c. record c { finished = c.finished + 1 })
  ret true

unfoldable pub ticker : {S : Type 0} → ℕ → Prog (Memory S) Bool
ticker zero = ret true
ticker (suc k) = do write (λ m. record m { clock = m.clock + 1 }); ticker k

unfoldable pub threads :
    {S : Type 0} → Config → (me : ℕ) → Option ℕ → (ticks : ℕ) → ℕ → Prog (Memory S) Bool
threads g me timeout ticks zero = parker g me timeout
threads g me timeout ticks (suc zero) = unparker g me
threads g me timeout ticks (suc (suc i)) = ticker ticks

abbrev pub start :
    {S : Type 0} → Config → (me : ℕ) → Option ℕ → (ticks : ℕ) → Memory S → System (Memory S) Bool
start g me timeout ticks m = record { count = 3; memory = m; thread = threads g me timeout ticks }
