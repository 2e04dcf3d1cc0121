-- ===== src/Algorithms/Alive.antt =====
-- algorithms.go: the list that `getAliveBackends` makes.
use load_balancer_comparison.Base.{
  ◌≡◌, refl, inl, inr, Bool, true, List, [], ◌∷◌, keep, In, All, arith, Bool-cases,
}

pub In-keep_inv :
    {A : Type 0} (test : A → Bool) (a : A) (xs : List A)
    → In a (keep test xs)
    → In a xs × (test a ≡ true)
In-keep_inv test a [] h = elim h [ ]
In-keep_inv test a (x ∷ xs) h = ground (arith, In-keep_inv test a xs)

pub In-keep :
    {A : Type 0} (test : A → Bool) (a : A) (xs : List A)
    → In a xs
    → test a ≡ true
    → In a (keep test xs)
In-keep test a [] h e = elim h [ ]
In-keep test a (x ∷ xs) (inl p) e = rw (← p, e) (inl refl)
In-keep test a (x ∷ xs) (inr q) e = elim (Bool-cases (test x)) [
  | inl t ↦ rw t (inr (In-keep test a xs q e))
  | inr f ↦ rw f (In-keep test a xs q e)
]

pub keep-eq_of_All :
    {A : Type 0} (test : A → Bool) (xs : List A) → All (λ a. test a ≡ true) xs → keep test xs ≡ xs
keep-eq_of_All test [] h = refl
keep-eq_of_All test (x ∷ xs) h = rw (h.0, keep-eq_of_All test xs h.1)
