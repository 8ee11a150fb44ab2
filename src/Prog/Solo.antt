-- ===== src/Prog/Solo.antt =====
-- A thread that runs alone.
use usync.Prelude.{false, ◌≡◌, refl, ◌⊎◌, inl, inr}
use usync.Prog.{Prog, ret, act, halt, Reason, solo, ◌>>=◌}

-- What follows a program that has run alone.
unfoldable pub resume : {M A B : Type 0} → (A → Prog M B) → M × (A ⊎ Reason) → M × (B ⊎ Reason)
resume f (m, inl a) = solo (f a) m
resume f (m, inr r) = (m, inr r)

pub solo-bind :
    {M A B : Type 0} (p : Prog M A) (f : A → Prog M B) (m : M)
    → solo (p >>= f) m ≡ resume f (solo p m)
unfolding solo resume ◌>>=◌
solo-bind (ret a) f m = refl
solo-bind (act e k) f m = solo-bind (k false m) f (e false m)
solo-bind (halt r) f m = refl
