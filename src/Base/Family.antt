-- ===== src/Base/Family.antt =====
-- Arrays and families as functions on ℕ: a write, and the sum of a weight over the first `n`.
use Prim.Native.Nat.{ℕ, zero, suc, ◌+◌, ◌≤◌, ◌<◌}
use mathlib.Core.Path.{◌≡◌, refl, sym, subst}
use mathlib.Core.Logic.{◌≢◌}
use native.Mathlib.Decide.{dec_lt, ℕ_discrete}
use native.Mathlib.Omega.{arith}
use sabo.Base.Tests.{◌==◌, if◌then◌else◌}

abbrev pub write {ℓ} : {A : Type ℓ} → (ℕ → A) → ℕ → A → ℕ → A
write f i v j = if j == i then v else f j

module _ {ℓ} {A : Type ℓ} where
  pub write_self : (f : ℕ → A) (i : ℕ) (v : A) → write f i v i ≡ v
  write_self f i v = ground arith

  pub write_other : (f : ℕ → A) {i j : ℕ} (v : A) → i ≢ j → write f i v j ≡ f j
  write_other f v h = ground arith

  -- What holds of the new value, and of the others, holds of all.
  pub write-all {ℓ'} :
      (P : ℕ → A → Type ℓ')
      → (n : ℕ) (f : ℕ → A) (i : ℕ) (v : A) → P i v
      → ((j : ℕ) → j < n → j ≢ i → P j (f j))
      → (j : ℕ) → j < n
      → P j (write f i v j)
  write-all P n f i v h others j b = elim (ℕ_discrete j i) [
    | yes e ↦ subst (λ k. P k (write f i v k)) (sym e) (subst (P i) (sym (write_self f i v)) h)
    | no e ↦ subst (P j) (sym (write_other f v (λ e'. e (sym e')))) (others j b e)
  ]

module _ {ℓ} {A : Type ℓ} (w : A → ℕ) where
  pub weight : ℕ → (ℕ → A) → ℕ
  weight zero f = 0
  weight (suc n) f = weight n f + w (f n)

  weight-write_ge :
      (n : ℕ) (f : ℕ → A) (i : ℕ) (a : A) → n ≤ i → weight n (write f i a) ≡ weight n f
  unfolding weight
  weight-write_ge zero f i a h = refl
  weight-write_ge (suc n) f i a h = ground (arith, weight-write_ge n f i a)

  -- A write changes the sum by the weights of the two values.
  pub weight-write :
      (n : ℕ) (f : ℕ → A) (i : ℕ) (a : A)
      → i < n
      → weight n (write f i a) + w (f i) ≡ weight n f + w a
  unfolding weight
  weight-write zero f i a h = absurd (omega arith)
  weight-write (suc n) f i a h = elim (dec_lt i n) [
    | yes below ↦ ground (arith, weight-write n f i a below)
    | no last ↦ ground (arith, weight-write_ge n f i a)
  ]

  pub weight-zero : (n : ℕ) (f : ℕ → A) → ((i : ℕ) → i < n → w (f i) ≡ 0) → weight n f ≡ 0
  unfolding weight
  weight-zero zero f h = refl
  weight-zero (suc n) f h =
      omega (arith, weight-zero n f (λ i b. h i (omega arith)), h n (omega arith))

  pub weight-le : (n : ℕ) (f : ℕ → A) → ((i : ℕ) → i < n → w (f i) ≤ 1) → weight n f ≤ n
  unfolding weight
  weight-le zero f h = omega arith
  weight-le (suc n) f h = omega (arith, weight-le n f (λ i b. h i (omega arith)), h n (omega arith))

  pub weight-full :
      (n : ℕ) (f : ℕ → A)
      → ((i : ℕ) → i < n → w (f i) ≤ 1)
      → weight n f ≡ n
      → (i : ℕ) → i < n
      → w (f i) ≡ 1
  unfolding weight
  weight-full zero f h e i b = absurd (omega arith)
  weight-full (suc n) f h e i b =
      let below : (j : ℕ) → j < n → w (f j) ≤ 1 = λ j c. h j (omega arith) in
      elim (dec_lt i n) [
        | yes c ↦ weight-full n f below (omega (arith, weight-le n f below, h n (omega arith))) i c
        | no c ↦
            let same : i ≡ n = omega arith in
            rw same (omega (arith, weight-le n f below, h n (omega arith)))
      ]

  pub weight-below :
      (n : ℕ) (f : ℕ → A)
      → ((i : ℕ) → i < n → w (f i) ≤ 1)
      → weight n f < n
      → (i : ℕ) × (i < n) × (w (f i) ≡ 0)
  unfolding weight
  weight-below zero f h b = absurd (omega arith)
  weight-below (suc n) f h b = elim (ℕ_discrete (w (f n)) 0) [
    | yes e ↦ (n, omega arith, e)
    | no e ↦
        let (i, c, z) =
          weight-below n f (λ j c. h j (omega arith)) (omega (arith, h n (omega arith))) in
        (i, omega arith, z)
  ]
