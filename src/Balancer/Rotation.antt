-- ===== src/Balancer/Rotation.antt =====
-- algorithms.go: round robin goes through the pool in a circle, so that a few steps from anywhere meet
-- a backend that is not among the failing ones.
use native.Mathlib.Nat.{suc-add, zero-add, mod-eq_of_lt, mod-add-mod}
use load_balancer_comparison.Base.{
  ℕ, zero, suc, ◌+◌, ◌-◌, ◌%◌, ◌<◌, ◌≤◌, ◌≡◌, refl, ap, ◌∙◌, sym, ◌⊎◌, inl, inr, Bool, false, some,
  List, [], ◌∷◌, ◌++◌, length, keep, take, drop, get_elem?, length-append, length-drop, Bool-cases,
  arith,
}

split : (i k : ℕ) → (i < k) ⊎ ((j : ℕ) × (i ≡ k + j))
split i zero = inr (i, omega arith)
split zero (suc k) = inl (omega arith)
split (suc i) (suc k) = elim (split i k) [
  | inl less ↦ inl (omega arith)
  | inr (j, e) ↦ inr (j, omega (arith, e))
]

wrapped : (n l j i : ℕ) → n < l → j < n → i ≡ l - n + j → j ≡ (n + i) % l
wrapped n l j i h b e = grind arith

module _ {A : Type 0} where
  get_elem?-append_left :
      (xs ys : List A) (i : ℕ) → i < length xs → get_elem? (xs ++ ys) i ≡ get_elem? xs i
  get_elem?-append_left [] ys i h = elim h [ ]
  get_elem?-append_left (x ∷ xs) ys zero h = refl
  get_elem?-append_left (x ∷ xs) ys (suc i) h = get_elem?-append_left xs ys i (omega arith)

  get_elem?-append_right :
      (xs ys : List A) (i : ℕ) → get_elem? (xs ++ ys) (length xs + i) ≡ get_elem? ys i
  get_elem?-append_right [] ys i = rw zero-add refl
  get_elem?-append_right (x ∷ xs) ys i = rw suc-add (get_elem?-append_right xs ys i)

  get_elem?-drop : (n : ℕ) (xs : List A) (i : ℕ) → get_elem? (drop n xs) i ≡ get_elem? xs (n + i)
  get_elem?-drop zero xs i = rw zero-add refl
  get_elem?-drop (suc n) [] i = refl
  get_elem?-drop (suc n) (x ∷ xs) i = rw suc-add (get_elem?-drop n xs i)

  get_elem?-take : (n : ℕ) (xs : List A) (i : ℕ) → i < n → get_elem? (take n xs) i ≡ get_elem? xs i
  get_elem?-take zero xs i h = elim h [ ]
  get_elem?-take (suc n) [] i h = refl
  get_elem?-take (suc n) (x ∷ xs) zero h = refl
  get_elem?-take (suc n) (x ∷ xs) (suc i) h = get_elem?-take n xs i (omega arith)

  abbrev rotate : ℕ → List A → List A
  rotate n xs = drop n xs ++ take n xs

  get_elem?-rotate :
      (xs : List A) (n i : ℕ)
      → n < length xs
      → i < length xs
      → get_elem? (rotate n xs) i ≡ get_elem? xs ((n + i) % length xs)
  get_elem?-rotate xs n i h b = elim (split i (length xs - n)) [
    | inl before ↦
        get_elem?-append_left (drop n xs) (take n xs) i (omega (arith, length-drop n xs))
        ∙ get_elem?-drop n xs i
        ∙ ap (get_elem? xs) (sym (mod-eq_of_lt (omega arith)))
    | inr (j, e) ↦
        ap (get_elem? (rotate n xs)) (omega (arith, length-drop n xs, e))
        ∙ get_elem?-append_right (drop n xs) (take n xs) j
        ∙ get_elem?-take n xs j (omega (arith, e))
        ∙ ap (get_elem? xs) (wrapped n (length xs) j i (omega arith) (omega (arith, e)) e)
  ]

  length-rotate : (n : ℕ) (xs : List A) → length (rotate n xs) ≡ length xs
  length-rotate zero xs = omega (arith, length-append xs [])
  length-rotate (suc n) [] = refl
  length-rotate (suc n) (x ∷ xs) = omega (
    arith,
    length-append (drop n xs) (x ∷ take n xs),
    length-append (drop n xs) (take n xs),
    length-rotate n xs,
  )

  -- How many members pass a test.
  abbrev pub count : (A → Bool) → List A → ℕ
  count test xs = length (keep test xs)

  count-append :
      (test : A → Bool) (xs ys : List A) → count test (xs ++ ys) ≡ count test xs + count test ys
  count-append test [] ys = omega arith
  count-append test (x ∷ xs) ys = ground (arith, count-append test xs ys)

  count-halves :
      (test : A → Bool) (n : ℕ) (xs : List A)
      → count test (drop n xs) + count test (take n xs) ≡ count test xs
  count-halves test zero xs = omega arith
  count-halves test (suc n) [] = omega arith
  count-halves test (suc n) (x ∷ xs) = ground (arith, count-halves test n xs)

  -- The first member that fails the test comes after members that pass it.
  first_other :
      (test : A → Bool) (xs : List A)
      → count test xs < length xs
      → (i : ℕ) × (a : A) × (i ≤ count test xs) × (get_elem? xs i ≡ some a) × (test a ≡ false)
  first_other test [] h = elim h [ ]
  first_other test (x ∷ xs) h = elim (Bool-cases (test x)) [
    | inl t ↦
        let more : count test (x ∷ xs) ≡ suc (count test xs) = rw t refl in
        let (i, a, few, at, f) = first_other test xs (omega (arith, h, more)) in
        (suc i, a, omega (arith, few, more), at, f)
    | inr f ↦ (0, x, omega arith, refl, f)
  ]

  -- From any place of a circle, a step count of at most the number of members that pass the test leads
  -- to one that fails it, if there is one.
  pub count-rotate :
      (test : A → Bool) (xs : List A) (c : ℕ)
      → count test xs < length xs
      → (d : ℕ) × (a : A) × (d ≤ count test xs)
        × (get_elem? xs ((c + d) % length xs) ≡ some a)
        × (test a ≡ false)
  count-rotate test xs c h =
      let n : ℕ = c % length xs in
      let inside : n < length xs = omega arith in
      let same : count test (rotate n xs) ≡ count test xs =
        count-append test (drop n xs) (take n xs) ∙ count-halves test n xs in
      let all : length (rotate n xs) ≡ length xs = length-rotate n xs in
      let (d, a, few, at, other) = first_other test (rotate n xs) (omega (arith, same, all, h)) in
      (
        d,
        a,
        omega (arith, few, same),
        ap (get_elem? xs) (sym (mod-add-mod c (length xs) d))
            ∙ sym (get_elem?-rotate xs n d inside (omega (arith, few, same, h)))
            ∙ at,
        other,
      )
