-- ===== src/Shared/Queue/Neutral.antt =====
-- Linking the queue leaves the state word alone.
use usync.Prelude.{ℕ, zero, suc, List, ◌∷◌, refl}
use usync.Shared.Neutral.{
  Neutral, ret, access-Neutral, halt, bind-Neutral, expect-Neutral, option-Neutral,
}
use usync.Shared.Queue.{link_loop, get_and_link_queue}

link_loop-Neutral :
    {S : Type 0} (f head current : ℕ) (found : List ℕ)
    → Neutral (link_loop {S = S} f head current found)
unfolding link_loop
link_loop-Neutral zero head current found = halt tt
link_loop-Neutral (suc f) head current found =
    access-Neutral _ _ _ (λ c m. (refl, refl))
      λ _. expect-Neutral _ _ λ next.
        access-Neutral _ _ _ (λ c m. (refl, refl))
          λ _.
            access-Neutral _ _ _ (λ c m. (refl, refl))
              λ _.
                option-Neutral _ (link_loop-Neutral f head next (next ∷ found))
                  λ t. access-Neutral _ _ _ (λ c m. (refl, refl)) λ _. ret _

pub get_and_link_queue-Neutral :
    {S : Type 0} (fuel pointer : ℕ) → Neutral (get_and_link_queue {S = S} fuel pointer)
unfolding get_and_link_queue
get_and_link_queue-Neutral fuel pointer = expect-Neutral _ _ λ head.
    access-Neutral _ _ _ (λ c m. (refl, refl))
      λ _.
        option-Neutral _ (bind-Neutral _ (link_loop-Neutral fuel head head _) λ _. ret _) λ t. ret _
