-- ===== src/Prelude/Lists.antt =====
-- Lists measured by native numbers, and families indexed by a thread: update and sum.
use Prim.Native.Nat.{ℕ, zero, suc, ◌+◌, ◌≤◌, ◌<◌}
use mathlib.Core.Path.{◌≡◌, subst, refl, sym, ap, fun_ext}
use mathlib.Core.List.{List, [], ◌∷◌}
use mathlib.Core.Logic.{◌≢◌, inl, inr}
use native.Mathlib.Decide.{dec_lt}
use native.Mathlib.Omega.{arith}
use usync.Prelude.Tests.{Bool-cases, ◌==◌, if◌then◌else◌}

abbrev pub length {ℓ} : {A : Type ℓ} → List A → ℕ
length [] = 0
length (x ∷ xs) = suc (length xs)

-- `f` with the value `a` at `i`.
abbrev pub update {ℓ} : {A : Type ℓ} → (ℕ → A) → ℕ → A → ℕ → A
update f i a j = if i == j then a else f j

pub update_self {ℓ} : {A : Type ℓ} (f : ℕ → A) (i : ℕ) (a : A) → update f i a i ≡ a
update_self f i a = ground arith

pub update_same {ℓ} : {A : Type ℓ} (f : ℕ → A) (i : ℕ) → update f i (f i) ≡ f
update_same f i = fun_ext λ j. ground arith

-- Of two updates in one place the later one counts.
pub update_twice {ℓ} :
    {A : Type ℓ} (f : ℕ → A) (i : ℕ) (a b : A) → update (update f i a) i b ≡ update f i b
update_twice f i a b =
    fun_ext λ j. elim (Bool-cases (i == j)) [ inl same ↦ rw same refl | inr other ↦ rw other refl ]

-- An update is undone by another one.
pub update_back {ℓ} :
    {A : Type ℓ} (f : ℕ → A) (i : ℕ) (a b : A) → f i ≡ b → update (update f i a) i b ≡ f
update_back f i a b e = fun_ext λ j. elim (Bool-cases (i == j)) [
  | inl same ↦ let h : i ≡ j = ground arith in rw (same, ← h) (sym e)
  | inr other ↦ rw other refl
]

-- What holds of each value holds after an update, if it holds of the new value.
pub update_each {ℓ κ} :
    {A : Type ℓ} (P : ℕ → A → Type κ) (f : ℕ → A) (i : ℕ) (a : A)
    → ((j : ℕ) → i ≢ j → P j (f j))
    → P i a
    → (j : ℕ) → P j (update f i a j)
update_each P f i a others here j = elim (Bool-cases (i == j)) [
  | inl same ↦ let e : i ≡ j = ground arith in rw same (subst (λ k. P k a) e here)
  | inr other ↦ rw other (others j (ground arith))
]

-- A function after an update.
pub after-update {ℓ κ} :
    {A : Type ℓ} {B : Type κ} (g : A → B) (f : ℕ → A) (i : ℕ) (a : A)
    → (λ j. g (update f i a j)) ≡ update (λ j. g (f j)) i (g a)
after-update g f i a =
    fun_ext λ j. elim (Bool-cases (i == j)) [ inl same ↦ rw same | inr other ↦ rw other ]

-- The sum of the first `n` numbers.
sum : (ℕ → ℕ) → ℕ → ℕ
sum x zero = 0
sum x (suc n) = x n + sum x n

sum_agree : (x y : ℕ → ℕ) (n : ℕ) → ((j : ℕ) → j < n → x j ≡ y j) → sum x n ≡ sum y n
unfolding sum
sum_agree x y zero same = refl
sum_agree x y (suc n) same =
    omega (arith, same n (omega arith), sum_agree x y n λ j h. same j (omega arith))

-- Two sums that differ in one place differ as that place does.
sum_change :
    (x y : ℕ → ℕ) (i n : ℕ) → i < n → ((j : ℕ) → i ≢ j → x j ≡ y j) → sum y n + x i ≡ sum x n + y i
unfolding sum
sum_change x y i zero h others = absurd (omega arith)
sum_change x y i (suc n) h others = elim (dec_lt i n) [
  | yes below ↦ omega (arith, sum_change x y i n below others, others n (λ e. omega arith))
  | no last ↦
      let here : i ≡ n = omega arith in
      rw here (omega (arith, sum_agree x y n λ j h'. others j (λ e. omega arith)))
]

member_le_sum : (x : ℕ → ℕ) (i n : ℕ) → i < n → x i ≤ sum x n
unfolding sum
member_le_sum x i zero h = absurd (omega arith)
member_le_sum x i (suc n) h = elim (dec_lt i n) [
  | yes below ↦ omega (arith, member_le_sum x i n below)
  | no last ↦ let here : i ≡ n = omega arith in rw here (omega arith)
]

sum_le : (x y : ℕ → ℕ) (n : ℕ) → ((j : ℕ) → x j ≤ y j) → sum x n ≤ sum y n
unfolding sum
sum_le x y zero h = omega arith
sum_le x y (suc n) h = omega (arith, h n, sum_le x y n h)

sum_zero : (x : ℕ → ℕ) (n : ℕ) → ((j : ℕ) → j < n → x j ≡ 0) → sum x n ≡ 0
unfolding sum
sum_zero x zero h = refl
sum_zero x (suc n) h = omega (arith, h n (omega arith), sum_zero x n λ j lt. h j (omega arith))

sum_add : (x y : ℕ → ℕ) (n : ℕ) → sum (λ j. x j + y j) n ≡ sum x n + sum y n
unfolding sum
sum_add x y zero = refl
sum_add x y (suc n) = omega (arith, sum_add x y n)

-- Two places together are no more than the sum.
two_le_sum : (x : ℕ → ℕ) (i j n : ℕ) → i < n → j < n → i ≢ j → x i + x j ≤ sum x n
two_le_sum x i j n hi hj ne =
    let others : (k : ℕ) → j ≢ k → x k ≡ update x j 0 k = λ k h. ground (arith, h) in
    let changed = rw (update_self x j 0) at (sum_change x (update x j 0) j n hj others) in
    let same : x i ≡ update x j 0 i = others i (λ e. ne (sym e)) in
    omega (arith, changed, same, member_le_sum (update x j 0) i n hi)

-- What the first `n` members of a family weigh together.
pub total {ℓ} : {A : Type ℓ} → (A → ℕ) → ℕ → (ℕ → A) → ℕ
total w n f = sum (λ j. w (f j)) n

module _ {ℓ} {A : Type ℓ} (w : A → ℕ) (n : ℕ) (f : ℕ → A) where
  pub total-update :
      (i : ℕ) (a : A) → i < n → total w n (update f i a) + w (f i) ≡ total w n f + w a
  unfolding total
  total-update i a h =
      let others : (j : ℕ) → i ≢ j → w (f j) ≡ w (update f i a j) = λ j ne. ground arith in
      let changed = sum_change (λ j. w (f j)) (λ j. w (update f i a j)) i n h others in
      rw (ap w (update_self f i a)) at changed

  pub le-total : (i : ℕ) → i < n → w (f i) ≤ total w n f
  unfolding total
  le-total i h = member_le_sum (λ j. w (f j)) i n h

  pub two_le_total : (i j : ℕ) → i < n → j < n → i ≢ j → w (f i) + w (f j) ≤ total w n f
  unfolding total
  two_le_total i j hi hj ne = two_le_sum (λ k. w (f k)) i j n hi hj ne

  pub total-eq-zero : ((j : ℕ) → j < n → w (f j) ≡ 0) → total w n f ≡ 0
  unfolding total
  total-eq-zero h = sum_zero (λ j. w (f j)) n h

module _ {ℓ} {A : Type ℓ} (v w : A → ℕ) (n : ℕ) (f : ℕ → A) where
  pub total_mono : ((j : ℕ) → v (f j) ≤ w (f j)) → total v n f ≤ total w n f
  unfolding total
  total_mono h = sum_le (λ j. v (f j)) (λ j. w (f j)) n h

  pub total_add : total (λ a. v a + w a) n f ≡ total v n f + total w n f
  unfolding total
  total_add = sum_add (λ j. v (f j)) (λ j. w (f j)) n
