-- ===== src/Algorithms/Weighted.antt =====
-- algorithms.go: what one call of weighted round robin does to the current weights, in exact
-- arithmetic, while they fit into an `int`.
pub mod Scanned
pub mod Highest
pub mod Round
pub mod Sums
pub mod Tally
pub mod Share
pub mod Starvation
use load_balancer_comparison.Base.{
  ℕ, zero, suc, ◌+◌, ◌-◌, ◌^◌, ◌≤◌, ◌≡◌, refl, sym, ap, ◌∙◌, inl, inr, ◌⊎◌, ◌≢◌, true, false,
  Option, none, some, List, [], ◌∷◌, In, if◌then◌else◌, arith, length,
}
use load_balancer_comparison.Base.Int.{
  ℤ, pos, negsuc, ◌+ℤ◌, ◌-ℤ◌, ◌≤ℤ◌, InInt64, int_laws, leb_ℤ, pos_part,
}
use load_balancer_comparison.Backend.{Addr}
use load_balancer_comparison.Algorithms.{Heap, Weights, weight_at, effective_weight}

-- No backend stands twice in the list.
abbrev pub Distinct : List Addr → Type 0
Distinct [] = Unit
Distinct (p ∷ ps) = (¬ In p ps) × Distinct ps

abbrev pub sum : (Addr → ℤ) → List Addr → ℤ
sum f [] = pos 0
sum f (p ∷ ps) = f p +ℤ sum f ps

-- The effective weight of a backend as a number, at least 1.
unfoldable pub share : Heap → Addr → ℕ
share heap p = pos_part (effective_weight (heap p))

pub effective_weight-share :
    (heap : Heap) (p : Addr) → effective_weight (heap p) ≡ pos (share heap p)
unfolding share effective_weight
effective_weight-share heap p = ground arith

pub share_pos : (heap : Heap) (p : Addr) → 1 ≤ share heap p
unfolding share effective_weight
share_pos heap p = ground arith

abbrev pub total : Heap → List Addr → ℕ
total heap [] = 0
total heap (p ∷ ps) = share heap p + total heap ps

-- What a backend's current weight becomes when its own weight is added.
abbrev pub raised : Heap → Weights → Addr → ℤ
raised heap weights p = weight_at weights p +ℤ pos (share heap p)

-- No addition of the round overflows.
pub record Room (heap : Heap) (weights : Weights) (alive : List Addr) : Type 0 where
  pub each : (q : Addr) → In q alive → InInt64 (raised heap weights q)
  pub all : total heap alive ≤ 2 ^ 63 - 1
