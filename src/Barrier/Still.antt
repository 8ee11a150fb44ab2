-- ===== src/Barrier/Still.antt =====
-- Waking the waiters of a completed barrier leaves the state word and the queue's links alone.
use usync.Prelude.{ℕ, zero, suc, Option, refl}
use usync.Shared.{Config}
use usync.Shared.Still.{Still, access-Still, bind-Still, option-Still}
use usync.Shared.Parker.Still.{unpark-Still}
use usync.Barrier.{wake_loop}

pub wake_loop-Still : (g : Config) (n : ℕ) (o : Option ℕ) → Still (wake_loop g n o)
unfolding wake_loop
wake_loop-Still g zero o = Still.halt tt
wake_loop-Still g (suc n) o = option-Still o (Still.ret tt) λ w.
    access-Still _ _ _ (λ c m. (refl, refl, λ p. refl))
      λ next. bind-Still _ (unpark-Still g w) λ _. wake_loop-Still g n next
