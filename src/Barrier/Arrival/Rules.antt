-- ===== src/Barrier/Arrival/Rules.antt =====
-- The rules by which the code of the barrier moves memory and roles.
use usync.Prelude.{
  ℕ, Bool, true, false, ◌&&◌, not, Option, none, some, ◌≡◌, refl, sym, if◌then◌else◌, update,
  update_same, subst, arith,
}
use usync.Prog.{Prog, access, Reason, ◌>>=◌, assert, expect}
use usync.Prog.Safe.{Safe, access-Safe, bind-Safe}
use usync.Shared.{Waiter, Memory, cas_weak, read, modify, with_waiter, load}
use usync.Shared.Still.{Still, SameLinks, links, view, view-SameLinks, view-with_waiter}
use usync.Barrier.{Word, same, same_eq}
use usync.Barrier.Arrival.Roles.{Role, Sees, Moves, Goes, Allowed, Ok}

module _ (size n : ℕ) where
  -- Nothing that the invariant reads has changed.
  pub unmoved : (r : Role) (m m' : Memory Word) → SameLinks m m' → Moves size n r m r m'
  unmoved r m m' s rs i lt e inv = rw (view-SameLinks m m' s, ← e, update_same rs i) inv

  pub waiter_moved :
      (r r' : Role) (p : ℕ) (f : Waiter → Waiter) (m : Memory Word)
      → Goes size n r
          (view m)
          r'
          (record (view m) { links = update (view m).links p (links (f (m.heap p))) })
      → Moves size n r m r' (with_waiter p f m)
  waiter_moved r r' p f m goes rs i lt e inv = rw (view-with_waiter p f m) (goes rs i lt e inv)

  Still-alone :
      {A : Type 0} (r : Role) {p : Prog (Memory Word) A} → Still p → Ok size n (λ a r'. r' ≡ r) p r
  Still-alone r (Still.ret a) = Safe.ret refl
  Still-alone r (Still.act {e} keeps later) =
      Safe.act (λ c m sees. r) (λ c m sees. unmoved r m (e c m) (keeps c m))
        (λ c m sees. Still-alone r (later c m))
  Still-alone r (Still.halt {w} h) = Safe.halt tt

  module _ {A : Type 0} {Q : A → Role → Type 0} {r : Role} where
    pub after :
        {B : Type 0} {R : B → Role → Type 0} (f : B → Prog (Memory Word) A)
        {p : Prog (Memory Word) B}
        → Ok size n R p r
        → ((b : B) (r' : Role) → R b r' → Ok size n Q (f b) r')
        → Ok size n Q (p >>= f) r
    after f h next = bind-Safe (Sees size n) (Moves size n) Allowed f h next

    pub still :
        {B : Type 0} (f : B → Prog (Memory Word) A) {p : Prog (Memory Word) B}
        → Still p
        → ((b : B) → Ok size n Q (f b) r)
        → Ok size n Q (p >>= f) r
    still f h next = after f (Still-alone r h) λ b r' e. rw e (next b)

    -- An access after which the role may depend on what was seen.
    pub step :
        {B : Type 0} (e : Memory Word → Memory Word) (v : Memory Word → B)
        (f : B → Prog (Memory Word) A)
        → ((m : Memory Word)
            → Sees size n r m
            → (r' : Role) × Moves size n r m r' (e m) × Ok size n Q (f (v m)) r')
        → Ok size n Q (access (λ c m. e m) (λ c m. v m) >>= f) r
    step e v f next = access-Safe (Sees size n) (Moves size n) Allowed _ _ f λ c m sees. next m sees

    -- A read of a cell of which the role knows what it says.
    pub read-Ok :
        {B : Type 0} (p : ℕ) (get : Waiter → B) (b : B) (f : B → Prog (Memory Word) A)
        → ((m : Memory Word) → Sees size n r m → get (m.heap p) ≡ b)
        → Ok size n Q (f b) r
        → Ok size n Q (read p get >>= f) r
    read-Ok p get b f known next =
        step (λ m. m) (λ m. get (m.heap p)) f
          λ m sees. (
            r,
            unmoved r m m (refl, refl, λ _. refl),
            subst (λ x. Ok size n Q (f x) r) (sym (known m sees)) next,
          )

    -- A write to a waiter.
    pub modify-Ok :
        (r' : Role) (p : ℕ) (g : Waiter → Waiter) (f : Unit {0} → Prog (Memory Word) A)
        → ((m : Memory Word) → Sees size n r m → Moves size n r m r' (with_waiter p g m))
        → Ok size n Q (f tt) r'
        → Ok size n Q (modify p g >>= f) r
    modify-Ok r' p g f moves next =
        step (with_waiter p g) (λ m. tt) f λ m sees. (r', moves m sees, next)

    pub load-Ok :
        (f : Word → Prog (Memory Word) A)
        → ((m : Memory Word)
            → Sees size n r m
            → (r' : Role) × Goes size n r (view m) r' (view m) × Ok size n Q (f m.word) r')
        → Ok size n Q (load >>= f) r
    load-Ok f next = step (λ m. m) (λ m. m.word) f next

    pub assert-Ok :
        (w : Reason) (b : Bool) (f : Unit {0} → Prog (Memory Word) A)
        → (b ≡ true → Ok size n Q (f tt) r)
        → Ok size n Q (assert w b >>= f) r
    unfolding assert ◌>>=◌
    assert-Ok w true f ok = ok refl
    assert-Ok w false f ok = Safe.halt tt

    pub expect-Ok :
        {B : Type 0} (w : Reason) (o : Option B) (f : B → Prog (Memory Word) A)
        → ((b : B) → o ≡ some b → Ok size n Q (f b) r)
        → Ok size n Q (expect w o >>= f) r
    unfolding expect ◌>>=◌
    expect-Ok w none f ok = Safe.halt tt
    expect-Ok w (some b) f ok = ok b refl

    pub if-Ok :
        (b : Bool) {p q : Prog (Memory Word) A}
        → (b ≡ true → Ok size n Q p r)
        → (b ≡ false → Ok size n Q q r)
        → Ok size n Q (if b then p else q) r
    if-Ok true hp hq = hp refl
    if-Ok false hp hq = hq refl

    -- A compare-exchange: what it takes if it succeeds, and how it goes on if it does not.
    module _ (old new : Word) (f : Option Word → Prog (Memory Word) A)
        (win : (m : Memory Word)
          → Sees size n r m
          → m.word ≡ old
          → (r' : Role) × Goes size n r (view m) r' (record (view m) { word = new })
            × Ok size n Q (f none) r')
        (lose : (m : Memory Word)
          → Sees size n r m
          → (r' : Role) × Goes size n r (view m) r' (view m)
            × Ok size n Q (f (some m.word)) r') where
      cas_choice :
          (b : Bool) (m : Memory Word)
          → (b ≡ true → m.word ≡ old)
          → Sees size n r m
          → (r' : Role) × Moves size n r m r' (record m { word = if b then new else m.word })
            × Ok size n Q (f (if b then none else some m.word)) r'
      cas_choice true m found sees = win m sees (found refl)
      cas_choice false m found sees = lose m sees

      pub cas_weak-Ok : Ok size n Q (cas_weak same old new >>= f) r
      cas_weak-Ok = access-Safe (Sees size n) (Moves size n) Allowed _ _ f λ c m sees.
          cas_choice (same m.word old && not c) m (λ h. same_eq m.word old (ground arith)) sees
