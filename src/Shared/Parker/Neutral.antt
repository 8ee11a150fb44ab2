-- ===== src/Shared/Parker/Neutral.antt =====
-- Parking and unparking leave the state word alone.
use usync.Prelude.{ℕ, Option}
use usync.Shared.{Config}
use usync.Shared.Neutral.{Neutral}
use usync.Shared.Still.{Still-Neutral}
use usync.Shared.Parker.{park, unpark}
use usync.Shared.Parker.Still.{park-Still, unpark-Still}

module _ {S : Type 0} (g : Config) (me : ℕ) where
  pub park-Neutral : (timeout : Option ℕ) → Neutral (park {S = S} g me timeout)
  park-Neutral timeout = Still-Neutral (park-Still g me timeout)

  pub unpark-Neutral : Neutral (unpark {S = S} g me)
  unpark-Neutral = Still-Neutral (unpark-Still g me)
