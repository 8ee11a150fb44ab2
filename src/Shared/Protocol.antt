-- ===== src/Shared/Protocol.antt =====
-- The rules by which the code of a primitive is shown to keep to a protocol: what the owner of a
-- role knows of the word and of the counts, and how words, counts and roles may move together.
use usync.Prelude.{
  sym, subst, Bool, true, false, Bool-cases, inl, inr, ◌&&◌, not, Option, none, some, ◌≡◌, refl,
  if◌then◌else◌, match_option, arith,
}
use usync.Prog.{Prog, access, Reason, ◌>>=◌, assert, expect}
use usync.Prog.Safe.{Safe, access-Safe, bind-Safe}
use usync.Shared.{Memory, Counts, cas_weak, cas, fetch, load}
use usync.Shared.Neutral.{Neutral, IsQueueReason}

pub record Protocol (S Role : Type 0) : Type 1 where
  pub Knows : Role → S → Type 0
  pub Fits : Role → Counts → Type 0
  pub Step : Role → S → Counts → Role → S → Counts → Type 0
  pub Allowed : Reason → Type 0
  pub stay : (r : Role) (s : S) (c : Counts) → Knows r s → Fits r c → Step r s c r s c
  pub allow : (w : Reason) → IsQueueReason w → Allowed w
  pub same : S → S → Bool
  pub same_eq : (s t : S) → same s t ≡ true → s ≡ t

module _ {S Role : Type 0} (P : Protocol S Role) where
  pub record Sees (r : Role) (m : Memory S) : Type 0 where
    pub word : P.Knows r m.word
    pub counts : P.Fits r m.counts

  abbrev pub Moves : Role → Memory S → Role → Memory S → Type 0
  Moves r m r' m' = P.Step r m.word m.counts r' m'.word m'.counts

  abbrev pub Keeps : {A : Type 0} → (A → Role → Type 0) → Prog (Memory S) A → Role → Type 0
  Keeps = Safe Sees Moves P.Allowed

  Moves-refl :
      (r : Role) (m m' : Memory S)
      → m'.word ≡ m.word
      → m'.counts ≡ m.counts
      → Sees r m
      → Moves r m r m'
  Moves-refl r m m' w i sees = rw (w, i) (P.stay r m.word m.counts sees.word sees.counts)

  -- A neutral program, alone and in front of another.
  pub neutral_alone :
      {A : Type 0} {Q : A → Role → Type 0} {r : Role} {p : Prog (Memory S) A}
      → Neutral p
      → ((a : A) → Q a r)
      → Keeps Q p r
  neutral_alone (Neutral.ret a) last = Safe.ret (last a)
  neutral_alone {r} (Neutral.act {e} keeps later) last =
      Safe.act (λ c m sees. r) (λ c m sees. Moves-refl r m (e c m) (keeps c m).0 (keeps c m).1 sees)
        (λ c m sees. neutral_alone (later c m) last)
  neutral_alone (Neutral.halt {w} h) last = Safe.halt (P.allow w h)

module _ {S Role : Type 0} (P : Protocol S Role) {A : Type 0} {Q : A → Role → Type 0} where
  pub after :
      {B : Type 0} {R : B → Role → Type 0} (f : B → Prog (Memory S) A) {p : Prog (Memory S) B}
      {r : Role}
      → Keeps P R p r
      → ((b : B) (r' : Role) → R b r' → Keeps P Q (f b) r')
      → Keeps P Q (p >>= f) r
  after f h next = bind-Safe (Sees P) (Moves P) P.Allowed f h next

  pub neutral :
      {B : Type 0} (f : B → Prog (Memory S) A) {r : Role} {p : Prog (Memory S) B}
      → Neutral p
      → ((b : B) → Keeps P Q (f b) r)
      → Keeps P Q (p >>= f) r
  neutral f {r} h next =
      after {R = λ _ r'. r' ≡ r} f (neutral_alone P h (λ _. refl)) λ b r' e. rw e (next b)

  pub load-Keeps :
      (f : S → Prog (Memory S) A) {r : Role}
      → ((s : S) → P.Knows r s → Keeps P Q (f s) r)
      → Keeps P Q (load >>= f) r
  load-Keeps f {r} next =
      access-Safe (Sees P) (Moves P) P.Allowed _ _ f
        λ c m sees. (r, Moves-refl P r m m refl refl sees, next m.word sees.word)

  -- A load after which the role depends on the word.
  pub load-Step :
      (f : S → Prog (Memory S) A) {r : Role}
      → ((s : S) (c : Counts)
          → P.Knows r s
          → P.Fits r c
          → (r' : Role) × P.Step r s c r' s c × Keeps P Q (f s) r')
      → Keeps P Q (load >>= f) r
  load-Step f {r} next =
      access-Safe (Sees P) (Moves P) P.Allowed _ _ f
        λ c m sees. next m.word m.counts sees.word sees.counts

  -- An access that keeps to the waiters.
  pub quiet :
      {B : Type 0} (e : Bool → Memory S → Memory S) (v : Bool → Memory S → B)
      (f : B → Prog (Memory S) A) {r : Role}
      → ((c : Bool) (m : Memory S) → ((e c m).word ≡ m.word) × ((e c m).counts ≡ m.counts))
      → ((b : B) → Keeps P Q (f b) r)
      → Keeps P Q (access e v >>= f) r
  quiet e v f {r} keeps next =
      access-Safe (Sees P) (Moves P) P.Allowed e v f
        λ c m sees. let (w, i) = keeps c m in (r, Moves-refl P r m (e c m) w i sees, next _)

  pub if-Keeps :
      (b : Bool) {r : Role} {p q : Prog (Memory S) A}
      → (b ≡ true → Keeps P Q p r)
      → (b ≡ false → Keeps P Q q r)
      → Keeps P Q (if b then p else q) r
  if-Keeps true hp hq = hp refl
  if-Keeps false hp hq = hq refl

  pub option-Keeps :
      {B : Type 0} (o : Option B) {r : Role} {p : Prog (Memory S) A} {f : B → Prog (Memory S) A}
      → Keeps P Q p r
      → ((b : B) → Keeps P Q (f b) r)
      → Keeps P Q (match_option o p f) r
  option-Keeps none hp hf = hp
  option-Keeps (some b) hp hf = hf b

  -- An assertion that holds, and one that may fail.
  pub assert-Keeps :
      (w : Reason) (b : Bool) (f : Unit {0} → Prog (Memory S) A) {r : Role}
      → b ≡ true
      → Keeps P Q (f tt) r
      → Keeps P Q (assert w b >>= f) r
  unfolding assert ◌>>=◌
  assert-Keeps w true f h ok = ok
  assert-Keeps w false f h ok = cc

  pub may-Keep :
      (w : Reason) (b : Bool) (f : Unit {0} → Prog (Memory S) A) {r : Role}
      → P.Allowed w
      → (b ≡ true → Keeps P Q (f tt) r)
      → Keeps P Q (assert w b >>= f) r
  unfolding assert ◌>>=◌
  may-Keep w true f h ok = ok refl
  may-Keep w false f h ok = Safe.halt h

  pub expect-Keeps :
      {B : Type 0} (w : Reason) (o : Option B) (f : B → Prog (Memory S) A) {r : Role}
      → (o ≡ none → P.Allowed w)
      → ((b : B) → o ≡ some b → Keeps P Q (f b) r)
      → Keeps P Q (expect w o >>= f) r
  unfolding expect ◌>>=◌
  expect-Keeps w none f h ok = Safe.halt (h refl)
  expect-Keeps w (some b) f h ok = ok b refl

  -- A read-modify-write access: the new role may depend on the word that was found.
  pub fetch-Keeps :
      (g : S → S) (f : S → Prog (Memory S) A) {r : Role}
      → ((s : S) (c : Counts)
          → P.Knows r s
          → P.Fits r c
          → (r' : Role) × P.Step r s c r' (g s) c × Keeps P Q (f s) r')
      → Keeps P Q (fetch g >>= f) r
  fetch-Keeps g f {r} next =
      access-Safe (Sees P) (Moves P) P.Allowed _ _ f
        λ c m sees. next m.word m.counts sees.word sees.counts

  -- A change of the counts.
  pub count-Keeps :
      (g : Counts → Counts) (f : Unit {0} → Prog (Memory S) A) {r : Role}
      → ((s : S) (c : Counts)
          → P.Knows r s
          → P.Fits r c
          → (r' : Role) × P.Step r s c r' s (g c) × Keeps P Q (f tt) r')
      → Keeps P Q (access (λ c m. record m { counts = g m.counts }) (λ c m. tt) >>= f) r
  count-Keeps g f {r} next =
      access-Safe (Sees P) (Moves P) P.Allowed _ _ f
        λ c m sees. next m.word m.counts sees.word sees.counts

  -- A compare-exchange: what it takes if it succeeds, and how it goes on if it does not.
  module _ {r : Role} (old new : S) (f : Option S → Prog (Memory S) A)
      (win : (c : Counts)
        → P.Knows r old
        → P.Fits r c
        → (r' : Role) × P.Step r old c r' new c × Keeps P Q (f none) r')
      (lose : (s : S) (c : Counts)
        → P.Knows r s
        → P.Fits r c
        → (r' : Role) × P.Step r s c r' s c × Keeps P Q (f (some s)) r') where
    cas-choice :
        (b : Bool) (m : Memory S)
        → (b ≡ true → m.word ≡ old)
        → Sees P r m
        → (r' : Role) × Moves P r m r' (record m { word = if b then new else m.word })
          × Keeps P Q (f (if b then none else some m.word)) r'
    cas-choice true m found sees =
        let e = found refl in
        let (r', step, ok) = win m.counts (rw (← e) sees.word) sees.counts in (r', rw e step, ok)
    cas-choice false m found sees = lose m.word m.counts sees.word sees.counts

    pub cas_weak-Keeps : Keeps P Q (cas_weak P.same old new >>= f) r
    cas_weak-Keeps = access-Safe (Sees P) (Moves P) P.Allowed _ _ f λ c m sees.
        cas-choice (P.same m.word old && not c) m (λ h. P.same_eq m.word old (ground arith)) sees

    pub cas-Keeps : Keeps P Q (cas P.same old new >>= f) r
    cas-Keeps = access-Safe (Sees P) (Moves P) P.Allowed _ _ f λ c m sees.
        cas-choice (P.same m.word old && not false) m (λ h. P.same_eq m.word old (ground arith))
          sees

  -- A compare-exchange that fails only where it finds another word.
  pub cas_strong-Keeps :
      {r : Role} (old new : S) (f : Option S → Prog (Memory S) A)
      → ((c : Counts)
          → P.Knows r old
          → P.Fits r c
          → (r' : Role) × P.Step r old c r' new c × Keeps P Q (f none) r')
      → ((s : S) (c : Counts)
          → P.same s old ≡ false
          → P.Knows r s
          → P.Fits r c
          → (r' : Role) × P.Step r s c r' s c × Keeps P Q (f (some s)) r')
      → Keeps P Q (cas P.same old new >>= f) r
  cas_strong-Keeps {r} old new f win lose =
      access-Safe (Sees P) (Moves P) P.Allowed _ _ f λ c m sees.
        elim (Bool-cases (P.same m.word old)) [
          | inl found ↦
              let e : m.word ≡ old = P.same_eq m.word old found in
              let (r', step, ok) = win m.counts (rw (← e) sees.word) sees.counts in
              (
                r',
                rw found (subst (λ (s : S). P.Step r s m.counts r' new m.counts) (sym e) step),
                rw found ok,
              )
          | inr other ↦
              let (r', step, ok) = lose m.word m.counts other sees.word sees.counts in
              (r', rw other step, rw other ok)
        ]
