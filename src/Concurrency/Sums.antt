-- ===== src/Concurrency/Sums.antt =====
-- Families indexed by goroutine: a change at one index, and a sum over the goroutines below a number.
use load_balancer_comparison.Base.{
  ℕ, zero, suc, ◌+◌, ◌≤◌, ◌<◌, ◌==◌, ◌≡◌, refl, ap, Bool-cases, inl, inr, ==_iff, if◌then◌else◌,
  arith,
}

abbrev pub update {ℓ} : {A : Type ℓ} → (ℕ → A) → ℕ → A → ℕ → A
update f i a j = if i == j then a else f j

abbrev pub sum_below {ℓ} : {A : Type ℓ} → (A → ℕ) → (ℕ → A) → ℕ → ℕ
sum_below weigh f zero = 0
sum_below weigh f (suc n) = weigh (f n) + sum_below weigh f n

-- Goroutines that are not summed do not count.
sum_below_unchanged {ℓ} :
    {A : Type ℓ} (weigh : A → ℕ) (f : ℕ → A) (i n : ℕ) (a : A)
    → n ≤ i
    → sum_below weigh (update f i a) n ≡ sum_below weigh f n
sum_below_unchanged weigh f i zero a beyond = refl
sum_below_unchanged weigh f i (suc n) a beyond = ground (arith, sum_below_unchanged weigh f i n a)

pub sum_below-update {ℓ} :
    {A : Type ℓ} (weigh : A → ℕ) (f : ℕ → A) (i n : ℕ) (a : A)
    → i < n
    → weigh (f i) + sum_below weigh (update f i a) n ≡ weigh a + sum_below weigh f n
sum_below-update weigh f i (suc n) a below = elim (Bool-cases (i == n)) [
  | inl here ↦ ground (
    arith,
    sum_below_unchanged weigh f i n a,
    (==_iff i n).0 here,
    ap (λ j. weigh (f j)) ((==_iff i n).0 here),
  )
  | inr elsewhere ↦ ground (arith, sum_below-update weigh f i n a)
]
sum_below-update weigh f i zero a below = elim below [ ]

pub sum_below_zero {ℓ} :
    {A : Type ℓ} (weigh : A → ℕ) (f : ℕ → A) (n : ℕ)
    → ((i : ℕ) → weigh (f i) ≡ 0)
    → sum_below weigh f n ≡ 0
sum_below_zero weigh f (suc n) none = omega (arith, none n, sum_below_zero weigh f n none)
sum_below_zero weigh f zero none = refl
