-- ===== src/Condvar/Rules.antt =====
-- The rules for code of a mutex, and for the accesses to the condition variable's word, within the
-- protocol of both.
use usync.Prelude.{
  ℕ, ◌+◌, ◌*◌, ◌≤◌, Bool, true, false, ◌&&◌, not, Option, none, some, ◌≡◌, ◌≢◌, refl, sym, inl, inr,
  ◌==◌, update, update_self, update_same, if◌then◌else◌, Bool-cases, subst, arith,
}
use usync.Prog.{Prog, access, ◌>>=◌}
use usync.Prog.Safe.{Safe, access-Safe}
use usync.Shared.{Memory, fetch}
use usync.Shared.Protocol.{Sees, Moves, Keeps, after}
use usync.RwLock.State.{State}
use usync.Condvar.{
  Word, Words, Code, same, same_eq, mutex_part, mutex_whole, zoom, on_mutex, on_word,
}
use usync.Condvar.Notify.{load_word, cas_word}
use usync.Condvar.Roles.{Role, IsWord, Knows, Step, Ok, condvar, locked}
use usync.Mutex.Roles as Mutex
use usync.Mutex.Roles.{mutex}

-- A role with another one at one mutex.
abbrev pub at_lock : ℕ → Mutex.Role → Role → Role
at_lock l r big = record big { locks = update big.locks l r }

module _ (l : ℕ) (big : Role) where
  inner-Sees :
      (r : Mutex.Role) (m : Memory Words)
      → Sees condvar (at_lock l r big) m
      → Sees mutex r (mutex_part l m)
  inner-Sees r m sees = record {
    word = rw (update_self big.locks l r) at (sees.word.mutex l);
    counts = rw (update_self big.locks l r) at (sees.word.counts l);
  }

  inner-Moves :
      (r r' : Mutex.Role) (m : Memory Words) (p : Memory State)
      → Sees condvar (at_lock l r big) m
      → Moves mutex r (mutex_part l m) r' p
      → Moves condvar (at_lock l r big) m (at_lock l r' big) (mutex_whole l m p)
  inner-Moves r r' m p sees mv = record {
    queue = refl;
    signals = sees.word.signals;
    owned = sees.word.owned;
    kept = λ h. omega arith;
    word = sees.word.word;
    mutex = λ j. elim (Bool-cases (l == j)) [
      | inl here ↦ let e : l ≡ j = ground arith in rw (here, ← e) mv
      | inr other ↦ rw other (
          rw other at (
            Mutex.Step-refl ((at_lock l r big).locks j) _ _ (sees.word.mutex j)
              (sees.word.counts j)))
    ];
  }

  -- Code that keeps to the protocol of a mutex keeps to that of the condition variable beside it.
  pub zoom-Keeps :
      {A : Type 0} {Q : A → Mutex.Role → Type 0} {r : Mutex.Role} {p : Prog (Memory State) A}
      → Keeps mutex Q p r
      → Ok
          (λ a r'. (s : Mutex.Role) × (r' ≡ at_lock l s big) × Q a s)
          (on_mutex l p)
          (at_lock l r big)
  unfolding zoom
  zoom-Keeps (Safe.ret h) = Safe.ret (_, refl, h)
  zoom-Keeps {r} (Safe.act {e} next moves safe) =
      Safe.act (λ c m sees. at_lock l (next c (mutex_part l m) (inner-Sees r m sees)) big)
        (λ c m sees.
          inner-Moves r _ m (e c (mutex_part l m)) sees (moves c _ (inner-Sees r m sees)))
        (λ c m sees. zoom-Keeps (safe c _ (inner-Sees r m sees)))
  zoom-Keeps (Safe.halt h) = Safe.halt h

at_lock-same : (l : ℕ) (r : Role) → at_lock l (r.locks l) r ≡ r
at_lock-same l r = rw (update_same r.locks l)

-- Code of the mutex `l` that ends with the role `s` there, and what follows it.
pub on_mutex-Ok :
    {A B : Type 0} {Q : B → Role → Type 0} (l : ℕ) (f : A → Code B) {p : Prog (Memory State) A}
    {r : Role} (s : Mutex.Role)
    → Keeps mutex (λ a x. x ≡ s) p (r.locks l)
    → ((a : A) → Ok Q (f a) (at_lock l s r))
    → Ok Q (on_mutex l p >>= f) r
on_mutex-Ok {Q} l f {p} {r} s ok next =
    subst (λ x. Ok Q (on_mutex l p >>= f) x) (at_lock-same l r)
      (after condvar f (zoom-Keeps l r ok) λ a r' (s', e, es). rw (e, es) (next a))

-- The same, where the role there stays as it is.
pub on_mutex-stays :
    {A B : Type 0} {Q : B → Role → Type 0} (l : ℕ) (f : A → Code B) {p : Prog (Memory State) A}
    {r : Role}
    → Keeps mutex (λ a x. x ≡ r.locks l) p (r.locks l)
    → ((a : A) → Ok Q (f a) r)
    → Ok Q (on_mutex l p >>= f) r
on_mutex-stays {Q} l f {r} ok next =
    on_mutex-Ok l f (r.locks l) ok λ a. subst (λ x. Ok Q (f a) x) (sym (at_lock-same l r)) (next a)

-- What a thread knows of the word, and a change of the word with the change of role.
pub record KnowsWord (r : Role) (w : Word) : Type 0 where
  pub queue : r.queue ≤ locked w
  pub signals : r.signals ≤ w.signals
  pub owned : r.signals ≤ 7 * r.queue
  pub word : IsWord w

pub record Shift (r : Role) (w : Word) (q s : ℕ) (w' : Word) : Type 0 where
  pub queue : q + locked w ≡ r.queue + locked w'
  pub signals : s ≤ w'.signals
  pub owned : s ≤ 7 * q
  pub kept : locked w ≢ r.queue → w.signals ≤ w'.signals
  pub word : IsWord w'

abbrev pub holding : Role → ℕ → ℕ → Role
holding r q s = record { locks = r.locks; queue = q; signals = s }

known : {r : Role} {s : Words} → Knows r s → KnowsWord r s.condvar
known k = record { queue = k.queue; signals = k.signals; owned = k.owned; word = k.word }

Shift-Step :
    (r : Role) (s : Words) (q n : ℕ) (w : Word)
    → Knows r s
    → Shift r s.condvar q n w
    → Step r s (holding r q n) (record { condvar = w; mutexes = s.mutexes })
Shift-Step r s q n w k sh = record {
  queue = sh.queue;
  signals = sh.signals;
  owned = sh.owned;
  kept = sh.kept;
  word = sh.word;
  mutex = λ l. Mutex.Step-refl (r.locks l) _ _ (k.mutex l) (k.counts l);
}

-- What follows an access at the word `w` that leaves `w'`.
abbrev pub Next : {A : Type 0} → (A → Role → Type 0) → Role → Word → Word → Code A → Type 0
Next Q r w w' p = KnowsWord r w → (q : ℕ) × (n : ℕ) × Shift r w q n w' × Ok Q p (holding r q n)

module _ {A : Type 0} {Q : A → Role → Type 0} {r : Role} where
  pub load_word-Ok :
      (f : Word → Code A) → ((w : Word) → Next Q r w w (f w)) → Ok Q (load_word >>= f) r
  unfolding zoom access
  load_word-Ok f next = access-Safe (Sees condvar) (Moves condvar) condvar.Allowed _ _ f λ c m sees.
      let (q, n, sh, ok) = next m.word.condvar (known sees.word) in
      (holding r q n, Shift-Step r m.word q n _ sees.word sh, ok)

  pub swap_word-Ok :
      (g : Word → Word) (f : Word → Code A)
      → ((w : Word) → Next Q r w (g w) (f w))
      → Ok Q (on_word (fetch g) >>= f) r
  unfolding zoom access
  swap_word-Ok g f next =
      access-Safe (Sees condvar) (Moves condvar) condvar.Allowed _ _ f λ c m sees.
        let (q, n, sh, ok) = next m.word.condvar (known sees.word) in
        (holding r q n, Shift-Step r m.word q n _ sees.word sh, ok)

  module _ (old new : Word) (f : Option Word → Code A) (win : Next Q r old new (f none))
      (lose : (w : Word) → Next Q r w w (f (some w))) where
    cas-choice :
        (b : Bool) (w : Word)
        → (b ≡ true → w ≡ old)
        → KnowsWord r w
        → (q : ℕ) × (n : ℕ) × Shift r w q n (if b then new else w)
          × Ok Q (f (if b then none else some w)) (holding r q n)
    cas-choice true w found k = let e = found refl in rw e (win (rw e at k))
    cas-choice false w found k = lose w k

    pub cas_word-Ok : Ok Q (cas_word old new >>= f) r
    unfolding zoom access
    cas_word-Ok = access-Safe (Sees condvar) (Moves condvar) condvar.Allowed _ _ f λ c m sees.
        let w = m.word.condvar in
        let (q, n, sh, ok) =
          cas-choice (same w old && not c) w (λ h. same_eq w old (ground arith))
            (known sees.word) in
        (holding r q n, Shift-Step r m.word q n _ sees.word sh, ok)
