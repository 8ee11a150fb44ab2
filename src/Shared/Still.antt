-- ===== src/Shared/Still.antt =====
-- Programs that leave the word, the counts and the links of every waiter alone: parking and unparking
-- change only parkers and events.
use usync.Prelude.{
  after-update, ℕ, Bool, true, false, Option, none, some, ◌≡◌, if◌then◌else◌, match_option, update,
}
use mathlib.Core.Path.{fun_ext}
use usync.Prog.{Prog, access, expect, assert, ◌>>=◌, Reason, broken_queue}
use usync.Shared.{Waiter, Memory, Counts, with_waiter}
use usync.Shared.Neutral.{Neutral, IsQueueReason}

-- What the queue needs of a waiter.
pub record Links : Type 0 where
  pub next : Option ℕ
  pub tail : Option ℕ
  pub counter : ℕ

abbrev pub links : Waiter → Links
links w = record { next = w.next; tail = w.tail; counter = w.counter }

abbrev pub SameLinks : {S : Type 0} → Memory S → Memory S → Type 0
SameLinks m m' =
    (m'.word ≡ m.word) × (m'.counts ≡ m.counts) × ((p : ℕ) → links (m'.heap p) ≡ links (m.heap p))

pub data Still {S A : Type 0} : Prog (Memory S) A → Type 0 where
  ret : (a : A) → Still (Prog.ret a)
  act :
      {e : Bool → Memory S → Memory S} {k : Bool → Memory S → Prog (Memory S) A}
      → ((c : Bool) (m : Memory S) → SameLinks m (e c m))
      → ((c : Bool) (m : Memory S) → Still (k c m))
      → Still (Prog.act e k)
  halt : {w : Reason} → IsQueueReason w → Still (Prog.halt w)

pub bind-Still :
    {S A B : Type 0} (f : A → Prog (Memory S) B) {p : Prog (Memory S) A}
    → Still p
    → ((a : A) → Still (f a))
    → Still (p >>= f)
unfolding ◌>>=◌
bind-Still f (ret a) next = next a
bind-Still f (act keeps rest) next = act keeps (λ c m. bind-Still f (rest c m) next)
bind-Still f (halt h) next = halt h

-- One access that keeps to the waiters.
pub access-Still :
    {S A B : Type 0} (e : Bool → Memory S → Memory S) (v : Bool → Memory S → A)
    (f : A → Prog (Memory S) B)
    → ((c : Bool) (m : Memory S) → SameLinks m (e c m))
    → ((a : A) → Still (f a))
    → Still (access e v >>= f)
unfolding access ◌>>=◌
access-Still e v f keeps next = act keeps (λ c m. next _)

pub last-Still :
    {S A : Type 0} (e : Bool → Memory S → Memory S) (v : Bool → Memory S → A)
    → ((c : Bool) (m : Memory S) → SameLinks m (e c m))
    → Still (access e v)
unfolding access
last-Still e v keeps = act keeps (λ c m. ret _)

pub assert-Still :
    {S B : Type 0} (b : Bool) (f : Unit {0} → Prog (Memory S) B)
    → Still (f tt)
    → Still (assert broken_queue b >>= f)
unfolding assert ◌>>=◌
assert-Still true f h = h
assert-Still false f h = halt tt

pub last_assert-Still : {S : Type 0} (b : Bool) → Still (assert {M = Memory S} broken_queue b)
unfolding assert
last_assert-Still true = ret tt
last_assert-Still false = halt tt

pub expect-Still :
    {S A B : Type 0} (o : Option A) (f : A → Prog (Memory S) B)
    → ((a : A) → Still (f a))
    → Still (expect broken_queue o >>= f)
unfolding expect ◌>>=◌
expect-Still none f h = halt tt
expect-Still (some a) f h = h a

pub if-Still :
    {S A : Type 0} (b : Bool) {p q : Prog (Memory S) A}
    → Still p
    → Still q
    → Still (if b then p else q)
if-Still true hp hq = hp
if-Still false hp hq = hq

pub option-Still :
    {S A B : Type 0} (o : Option B) {p : Prog (Memory S) A} {f : B → Prog (Memory S) A}
    → Still p
    → ((b : B) → Still (f b))
    → Still (match_option o p f)
option-Still none hp hf = hp
option-Still (some b) hp hf = hf b

pub Still-Neutral : {S A : Type 0} {p : Prog (Memory S) A} → Still p → Neutral p
Still-Neutral (ret a) = Neutral.ret a
Still-Neutral (act keeps later) =
    Neutral.act (λ c m. ((keeps c m).0, (keeps c m).1)) λ c m. Still-Neutral (later c m)
Still-Neutral (halt h) = Neutral.halt h

-- What the queue sees of the memory.
pub record View (S : Type 0) : Type 0 where
  pub word : S
  pub counts : Counts
  pub links : ℕ → Links

abbrev pub view : {S : Type 0} → Memory S → View S
view m = record { word = m.word; counts = m.counts; links = λ p. links (m.heap p) }

pub view-SameLinks : {S : Type 0} (m m' : Memory S) → SameLinks m m' → view m' ≡ view m
view-SameLinks m m' (word, counts, same) =
    λ i. record { word = word i; counts = counts i; links = fun_ext same i }

-- A change of one waiter, as the queue sees it.
pub view-with_waiter :
    {S : Type 0} (p : ℕ) (f : Waiter → Waiter) (m : Memory S)
    → view (with_waiter p f m)
      ≡ record (view m) { links = update (view m).links p (links (f (m.heap p))) }
view-with_waiter p f m =
    λ i. record (view m) { links = after-update links m.heap p (f (m.heap p)) i }
