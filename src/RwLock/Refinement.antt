-- ===== src/RwLock/Refinement.antt =====
-- The code of the lock keeps its promise where there is no contention.
use usync.Prelude.{
  ℕ, suc, Bool, Option, none, some, ◌≡◌, refl, inl, match_option, ap, ◌∙◌, List, [], ◌∷◌,
}
use usync.Prog.{ret, solo, ◌>>=◌}
use usync.Shared.{Memory, Config}
use usync.RwLock.State.{State}
use usync.RwLock.Spec.{Holder, Operation, promise, promises, perform, perform_all, word_of}
use usync.RwLock.Alone.{Kept, kept}
use usync.Prog.Solo.{resume, solo-bind}

-- What several operations come to, against what was promised.
abbrev KeptAll :
    Config
    → (self me : ℕ) → Memory State
    → List Operation
    → Holder
    → Option (Holder × List Bool)
    → Type 0
KeptAll g self me m os h none = Unit
KeptAll g self me m os h (some (h', bs)) =
    solo (perform_all g self me os) (record m { word = word_of h })
    ≡ (record m { word = word_of h' }, inl bs)

module _ (g : Config) (self me : ℕ) (m : Memory State) (o : Operation) (os : List Operation)
    (h h' : Holder) (b : Bool)
    (first : solo (perform g self me o) (record m { word = word_of h })
      ≡ (record m { word = word_of h' }, inl b)) where
  KeptAll-more :
      (q : Option (Holder × List Bool))
      → KeptAll g self me m os h' q
      → KeptAll g self me m (o ∷ os) h (match_option q none λ (h'', bs). some (h'', b ∷ bs))
  unfolding perform_all solo resume
  KeptAll-more none later = tt
  KeptAll-more (some (h'', bs)) later =
      solo-bind (perform g self me o) (λ b. perform_all g self me os >>= λ bs. ret (b ∷ bs))
        (record m { word = word_of h })
      ∙ ap (resume (λ b. perform_all g self me os >>= λ bs. ret (b ∷ bs))) first
      ∙ solo-bind (perform_all g self me os) (λ bs. ret (b ∷ bs)) (record m { word = word_of h' })
      ∙ ap (resume (λ bs. ret (b ∷ bs))) later

KeptAll-next :
    (g : Config) (self me : ℕ) (m : Memory State) (o : Operation) (os : List Operation) (h : Holder)
    (q : Option (Holder × Bool))
    → Kept g self me m o h q
    → ((h' : Holder) → KeptAll g self me m os h' (promises os h'))
    → KeptAll g self me m (o ∷ os) h (
        match_option q none
          λ (h', b). match_option (promises os h') none λ (h'', bs). some (h'', b ∷ bs))
KeptAll-next g self me m o os h none first later = tt
KeptAll-next g self me m o os h (some (h', b)) first later =
    KeptAll-more g self me m o os h h' b first (promises os h') (later h')

kept_all :
    (x86 multi_core : Bool) (fuel self me : ℕ) (m : Memory State) (os : List Operation) (h : Holder)
    → KeptAll
        (record { x86 = x86; multi_core = multi_core; fuel = suc fuel })
        self
        me
        m
        os
        h
        (promises os h)
unfolding perform_all solo
kept_all x mc f self me m [] h = refl
kept_all x mc f self me m (o ∷ os) h =
    KeptAll-next _ self me m o os h (promise o h) (kept x mc f self me m o h)
      λ h'. kept_all x mc f self me m os h'

-- A thread that runs any number of operations one after the other, alone, without waiters or
-- spurious failures, and on fuel for one round of each loop: if the abstract lock promises to do
-- them all, they return with the promised answers, leave the word of the promised holders, and
-- write to nothing else, on x86 and elsewhere.
pub promises_kept :
    (x86 multi_core : Bool) (fuel self me : ℕ) (m : Memory State) (os : List Operation)
    (h h' : Holder) (bs : List Bool)
    → promises os h ≡ some (h', bs)
    → solo
        (perform_all (record { x86 = x86; multi_core = multi_core; fuel = suc fuel }) self me os)
        (record m { word = word_of h })
      ≡ (record m { word = word_of h' }, inl bs)
promises_kept x mc f self me m os h h' bs e = rw e at (kept_all x mc f self me m os h)
