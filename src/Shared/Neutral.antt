-- ===== src/Shared/Neutral.antt =====
-- Programs that leave the state word and the counts alone: whatever happens among the
-- waiters, the word is touched only by the accesses that the primitives' own code makes.
use usync.Prelude.{Bool, true, false, Option, none, some, ◌≡◌, if◌then◌else◌, match_option}
use usync.Prog.{Prog, access, expect, assert, ◌>>=◌, Reason, broken_queue, no_fuel}
use usync.Shared.{Memory}

-- The reasons that say nothing about the state word.
abbrev pub IsQueueReason : Reason → Type 0
IsQueueReason broken_queue = Unit
IsQueueReason no_fuel = Unit
IsQueueReason _ = ⊥

pub data Neutral {S A : Type 0} : Prog (Memory S) A → Type 0 where
  ret : (a : A) → Neutral (Prog.ret a)
  act :
      {e : Bool → Memory S → Memory S} {k : Bool → Memory S → Prog (Memory S) A}
      → ((c : Bool) (m : Memory S) → ((e c m).word ≡ m.word) × ((e c m).counts ≡ m.counts))
      → ((c : Bool) (m : Memory S) → Neutral (k c m))
      → Neutral (Prog.act e k)
  halt : {w : Reason} → IsQueueReason w → Neutral (Prog.halt w)

pub bind-Neutral :
    {S A B : Type 0} (f : A → Prog (Memory S) B) {p : Prog (Memory S) A}
    → Neutral p
    → ((a : A) → Neutral (f a))
    → Neutral (p >>= f)
unfolding ◌>>=◌
bind-Neutral f (ret a) next = next a
bind-Neutral f (act keeps rest) next = act keeps (λ c m. bind-Neutral f (rest c m) next)
bind-Neutral f (halt h) next = halt h

-- One access that keeps to the waiters.
pub access-Neutral :
    {S A B : Type 0} (e : Bool → Memory S → Memory S) (v : Bool → Memory S → A)
    (f : A → Prog (Memory S) B)
    → ((c : Bool) (m : Memory S) → ((e c m).word ≡ m.word) × ((e c m).counts ≡ m.counts))
    → ((a : A) → Neutral (f a))
    → Neutral (access e v >>= f)
unfolding access ◌>>=◌
access-Neutral e v f keeps next = act keeps (λ c m. next _)

pub last-Neutral :
    {S A : Type 0} (e : Bool → Memory S → Memory S) (v : Bool → Memory S → A)
    → ((c : Bool) (m : Memory S) → ((e c m).word ≡ m.word) × ((e c m).counts ≡ m.counts))
    → Neutral (access e v)
unfolding access
last-Neutral e v keeps = act keeps (λ c m. ret _)

pub assert-Neutral :
    {S B : Type 0} (b : Bool) (f : Unit {0} → Prog (Memory S) B)
    → Neutral (f tt)
    → Neutral (assert broken_queue b >>= f)
unfolding assert ◌>>=◌
assert-Neutral true f h = h
assert-Neutral false f h = halt tt

pub last_assert-Neutral : {S : Type 0} (b : Bool) → Neutral (assert {M = Memory S} broken_queue b)
unfolding assert
last_assert-Neutral true = ret tt
last_assert-Neutral false = halt tt

pub expect-Neutral :
    {S A B : Type 0} (o : Option A) (f : A → Prog (Memory S) B)
    → ((a : A) → Neutral (f a))
    → Neutral (expect broken_queue o >>= f)
unfolding expect ◌>>=◌
expect-Neutral none f h = halt tt
expect-Neutral (some a) f h = h a

pub if-Neutral :
    {S A : Type 0} (b : Bool) {p q : Prog (Memory S) A}
    → Neutral p
    → Neutral q
    → Neutral (if b then p else q)
if-Neutral true hp hq = hp
if-Neutral false hp hq = hq

pub option-Neutral :
    {S A B : Type 0} (o : Option B) {p : Prog (Memory S) A} {f : B → Prog (Memory S) A}
    → Neutral p
    → ((b : B) → Neutral (f b))
    → Neutral (match_option o p f)
option-Neutral none hp hf = hp
option-Neutral (some b) hp hf = hf b
