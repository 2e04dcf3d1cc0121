-- ===== src/Algorithms/LeastConnections.antt =====
-- algorithms.go: least connections finds the first live backend with the fewest connections.
use mathlib.Core.List.{append-nil, append_assoc}
use load_balancer_comparison.Base.{
  sym, All-append, All-mono, Bool-cases, ◌≡◌, ◌⊎◌, inl, inr, true, false, Option, none, some, List,
  [], ◌∷◌, ◌++◌, All, arith,
}
use load_balancer_comparison.Base.Int.{ℤ, pos, negsuc, ◌≤ℤ◌, ◌<ℤ◌}
use load_balancer_comparison.Backend.{Addr, is_alive, get_connections}
use load_balancer_comparison.Algorithms.{improves, Heap, least_from, least_connections_next}

regroup :
    (before : List Addr) (p : Addr) (seen rest : List Addr)
    → before ++ (p ∷ (seen ++ rest)) ≡ (before ++ (p ∷ seen)) ++ rest
regroup before p seen rest = sym (append_assoc before (p ∷ seen) rest)

shift :
    (seen : List Addr) (q : Addr) (todo : List Addr)
    → seen ++ (q ∷ todo) ≡ (seen ++ (q ∷ [])) ++ todo
shift seen q todo = sym (append_assoc seen (q ∷ []) todo)

module _ (heap : Heap) where
  abbrev IsDown : Addr → Type 0
  IsDown q = is_alive (heap q) ≡ false

  abbrev HasMore : ℤ → Addr → Type 0
  HasMore n q = IsDown q ⊎ (n <ℤ get_connections (heap q))

  abbrev HasAsMany : ℤ → Addr → Type 0
  HasAsMany n q = IsDown q ⊎ (n ≤ℤ get_connections (heap q))

  more_mono : (m n : ℤ) (q : Addr) → m ≤ℤ n → HasMore n q → HasMore m q
  more_mono m n q h (inl d) = inl d
  more_mono m n q h (inr l) = inr (omega arith)

  more_of_as_many : (m n : ℤ) (q : Addr) → m <ℤ n → HasAsMany n q → HasMore m q
  more_of_as_many m n q h (inl d) = inl d
  more_of_as_many m n q h (inr l) = inr (omega arith)

  -- `p` stands between `before` and `rest`: it is alive, the live ones before it have more
  -- connections, and the live ones after it at least as many.
  pub record IsLeast (before : List Addr) (p : Addr) (rest : List Addr) : Type 0 where
    pub up : is_alive (heap p) ≡ true
    pub more : All (HasMore (get_connections (heap p))) before
    pub as_many : All (HasAsMany (get_connections (heap p))) rest

  abbrev pub FirstLeast : List Addr → Option Addr → Type 0
  FirstLeast backends none = All IsDown backends
  FirstLeast backends (some p) =
      (before : List Addr) × (rest : List Addr) × (backends ≡ before ++ p ∷ rest)
      × IsLeast before p rest

  abbrev pub NonNegative : Addr → Type 0
  NonNegative q = pos 0 ≤ℤ get_connections (heap q)

  improves_cases :
      (q : Addr) (n : ℤ)
      → pos 0 ≤ℤ n
      → ((improves heap q n ≡ true) × (is_alive (heap q) ≡ true) × (get_connections (heap q) <ℤ n))
        ⊎ ((improves heap q n ≡ false) × HasAsMany n q)
  unfolding improves
  improves_cases q n h = elim (Bool-cases (improves heap q n)) [
    | inl e ↦ inl (e, ground arith, ground arith)
    | inr e ↦ inr (e, ground arith)
  ]

  improves_first : (q : Addr) → is_alive (heap q) ≡ true → improves heap q (negsuc 0) ≡ true
  unfolding improves
  improves_first q up = rw up

  improves_down : (q : Addr) (n : ℤ) → is_alive (heap q) ≡ false → improves heap q n ≡ false
  unfolding improves
  improves_down q n d = rw d

  -- Going on from a backend that is least so far.
  least_from-some :
      (todo before : List Addr) (p : Addr) (seen : List Addr)
      → IsLeast before p seen
      → NonNegative p
      → All NonNegative todo
      → FirstLeast
          (before ++ (p ∷ (seen ++ todo)))
          (least_from heap todo (get_connections (heap p)) (some p))
  unfolding least_from
  least_from-some [] before p seen least h nonneg = (before, seen, rw append-nil, least)
  least_from-some (q ∷ todo) before p seen least h nonneg =
      elim (improves_cases q (get_connections (heap p)) h) [
        | inl (e, up, fewer) ↦
            rw (e, regroup before p seen (q ∷ todo))
              (least_from-some todo (before ++ p ∷ seen) q []
                (record {
                  up = up;
                  more =
                      All-append _ before (p ∷ seen)
                        (All-mono _ _ before
                          (λ r.
                            more_mono (get_connections (heap q)) (get_connections (heap p)) r
                              (omega arith))
                          least.more)
                        (
                          inr fewer,
                          All-mono _ _ seen
                              (λ r.
                                more_of_as_many (get_connections (heap q))
                                  (get_connections (heap p)) r fewer)
                              least.as_many,
                        );
                  as_many = tt;
                })
                nonneg.0 nonneg.1)
        | inr (e, as_many) ↦
            rw (e, shift seen q todo)
              (least_from-some todo before p (seen ++ q ∷ [])
                (record {
                  up = least.up;
                  more = least.more;
                  as_many = All-append _ seen (q ∷ []) least.as_many (as_many, tt);
                })
                h nonneg.1)
      ]

  least_from-none :
      (todo before : List Addr)
      → All IsDown before
      → All NonNegative todo
      → FirstLeast (before ++ todo) (least_from heap todo (negsuc 0) none)
  unfolding least_from
  least_from-none [] before down nonneg = rw append-nil down
  least_from-none (q ∷ todo) before down nonneg = elim (Bool-cases (is_alive (heap q))) [
    | inl up ↦ rw (improves_first q up) (
        least_from-some todo before q []
          (record { up = up; more = All-mono _ _ before (λ r d. inl d) down; as_many = tt })
          nonneg.0 nonneg.1)
    | inr d ↦
        rw (improves_down q (negsuc 0) d, shift before q todo)
          (least_from-none todo (before ++ q ∷ []) (All-append _ before (q ∷ []) down (d, tt))
            nonneg.1)
  ]

  -- Where no connection count is negative, nothing is chosen exactly when no backend is alive, and
  -- otherwise the first live backend with the fewest connections.
  pub least_connections_next_lem :
      (backends : List Addr)
      → All NonNegative backends
      → FirstLeast backends (least_connections_next heap backends)
  unfolding least_connections_next
  least_connections_next_lem backends nonneg = least_from-none backends [] tt nonneg
