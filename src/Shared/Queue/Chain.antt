-- ===== src/Shared/Queue/Chain.antt =====
-- src/shared/waiter.rs: a queue while threads push to its front, seen from the word to the last waiter
-- that caches the tail.
use usync.Prelude.{ℕ, ◌+◌, none, some, List, [], ◌∷◌, ◌++◌, ◌≡◌, ◌≢◌, refl, ap, ◌∙◌, length, arith}
use usync.Shared.Still.{Links}
use usync.Shared.Queue.Linked.{Apart, Distinct}

abbrev pub All : (ℕ → Type 0) → List ℕ → Type 0
All P [] = Unit
All P (x ∷ xs) = P x × All P xs

pub map-All : {P Q : ℕ → Type 0} (xs : List ℕ) → ((x : ℕ) → P x → Q x) → All P xs → All Q xs
map-All [] f a = tt
map-All (x ∷ xs) f (p, a) = (f x p, map-All xs f a)

pub append-All : (P : ℕ → Type 0) (xs ys : List ℕ) → All P (xs ++ ys) → All P xs × All P ys
append-All P [] ys a = (tt, a)
append-All P (x ∷ xs) ys (p, a) = let (l, r) = append-All P xs ys a in ((p, l), r)

-- The first of `xs`, or else `base`.
abbrev pub first : List ℕ → ℕ → ℕ
first [] base = base
first (x ∷ xs) base = x

-- From the first of `xs` on the waiters follow by their `next`, and none of them knows the tail. The
-- last one is followed by `base`.
abbrev pub Chain : (ℕ → Links) → List ℕ → ℕ → Type 0
Chain heap [] base = Unit
Chain heap (x ∷ xs) base =
    ((heap x).tail ≡ none) × ((heap x).next ≡ some (first xs base)) × Chain heap xs base

-- Two waiters with the same `next` and the same tail.
abbrev pub Alike : Links → Links → Type 0
Alike k k' = (k'.next ≡ k.next) × (k'.tail ≡ k.tail)

pub same-Chain :
    (heap heap' : ℕ → Links) (xs : List ℕ) (base : ℕ)
    → All (λ x. Alike (heap x) (heap' x)) xs
    → Chain heap xs base
    → Chain heap' xs base
same-Chain heap heap' [] base same path = tt
same-Chain heap heap' (x ∷ xs) base ((en, et), same) (tail, next, path) =
    (et ∙ tail, en ∙ next, same-Chain heap heap' xs base same path)

pub first-append : (xs ys : List ℕ) (base : ℕ) → first (xs ++ ys) base ≡ first xs (first ys base)
first-append [] ys base = refl
first-append (x ∷ xs) ys base = refl

-- A path in two parts.
pub append-Chain :
    (heap : ℕ → Links) (xs ys : List ℕ) (base : ℕ)
    → Chain heap (xs ++ ys) base
    → Chain heap xs (first ys base) × Chain heap ys base
append-Chain heap [] ys base path = (tt, path)
append-Chain heap (x ∷ xs) ys base (tail, next, path) =
    let (l, r) = append-Chain heap xs ys base path in
    ((tail, next ∙ ap some (first-append xs ys base), l), r)

-- The heap determines the path from a waiter on, and where it ends.
pub unique-Chain :
    (heap : ℕ → Links) (xs ys : List ℕ) (b c t u : ℕ)
    → first xs b ≡ first ys c
    → Chain heap xs b
    → Chain heap ys c
    → (heap b).tail ≡ some t
    → (heap c).tail ≡ some u
    → (xs ≡ ys) × (b ≡ c) × (t ≡ u)
unique-Chain heap [] [] b c t u e p q tb tc = (refl, e, cc)
unique-Chain heap [] (y ∷ ys) b c t u e p (tail, next, q) tb tc = cc
unique-Chain heap (x ∷ xs) [] b c t u e (tail, next, p) q tb tc = cc
unique-Chain heap (x ∷ xs) (y ∷ ys) b c t u e (tail, next, p) (tail', next', q) tb tc =
    let follows : first xs b ≡ first ys c = cc in
    let (es, eb, et) = unique-Chain heap xs ys b c t u follows p q tb tc in (cc, eb, et)

append-Apart : (x : ℕ) (xs ys : List ℕ) (h : ℕ) → Apart x (xs ++ (h ∷ ys)) → Apart x xs × (x ≢ h)
append-Apart x [] ys h (ne, apart) = (tt, ne)
append-Apart x (y ∷ xs) ys h (ne, apart) = let (l, r) = append-Apart x xs ys h apart in ((ne, l), r)

-- `h` is none of the waiters in front of it.
pub append-Distinct :
    (xs ys : List ℕ) (h : ℕ) → Distinct (xs ++ (h ∷ ys)) → Distinct xs × All (λ x. x ≢ h) xs
append-Distinct [] ys h d = (tt, tt)
append-Distinct (x ∷ xs) ys h (apart, d) =
    let (l, r) = append-Distinct xs ys h d in
    let (away, ne) = append-Apart x xs ys h apart in ((away, l), (ne, r))

pub All-Apart : (x : ℕ) (ys : List ℕ) → All (λ y. x ≢ y) ys → Apart x ys
All-Apart x [] a = tt
All-Apart x (y ∷ ys) (ne, a) = (ne, All-Apart x ys a)

pub length-append : (xs ys : List ℕ) → length (xs ++ ys) ≡ length xs + length ys
length-append [] ys = omega arith
length-append (x ∷ xs) ys = omega (arith, length-append xs ys)

-- From `h` on the waiters `xs` follow by their `next`, the last of them all is `t`, and no other one
-- follows it.
abbrev pub Line : (ℕ → Links) → ℕ → List ℕ → ℕ → Type 0
Line heap h [] t = (h ≡ t) × ((heap h).next ≡ none)
Line heap h (x ∷ xs) t = ((heap h).next ≡ some x) × Line heap x xs t

pub same-Line :
    (heap heap' : ℕ → Links) (h : ℕ) (xs : List ℕ) (t : ℕ)
    → All (λ x. (heap' x).next ≡ (heap x).next) (h ∷ xs)
    → Line heap h xs t
    → Line heap' h xs t
same-Line heap heap' h [] t (en, _) (e, next) = (e, en ∙ next)
same-Line heap heap' h (x ∷ xs) t (en, same) (next, line) =
    (en ∙ next, same-Line heap heap' x xs t same line)
