-- ===== src/Algorithms.antt =====
-- Go-LoadBalancer/algorithms.go: the three ways to choose a backend. The state that `NextBackend`
-- keeps between calls is passed on; the mutex and the atomic counter make each call one step.
pub mod Alive
pub mod RoundRobin
pub mod LeastConnections
pub mod Weighted
pub mod Sound
use Prim.Native.String.{String}
use text.Mathlib.Text.{◌==◌ as str_eq}
use load_balancer_comparison.Base.{
  ℕ, zero, suc, ◌+◌, ◌-◌, ◌%◌, ◌^◌, ◌==◌, Bool, true, false, ◌&&◌, ◌||◌, Option, none, some, List,
  [], ◌∷◌, length, get_elem?, keep, if◌then◌else◌,
}
use load_balancer_comparison.Base.Int.{ℤ, pos, negsuc, add64, sub64, ltb_ℤ, leb_ℤ, eqb_ℤ}
use load_balancer_comparison.Backend.{Addr, Backend, is_alive, get_connections}

abbrev pub Heap : Type 0
Heap = Addr → Backend

-- A Go map from backends to `int`: `none` where the key is absent.
abbrev pub Weights : Type 0
Weights = Addr → Option ℤ

-- Reading an absent key yields 0.
abbrev pub or_zero : Option ℤ → ℤ
or_zero none = pos 0
or_zero (some w) = w

abbrev pub weight_at : Weights → Addr → ℤ
weight_at weights p = or_zero (weights p)

abbrev pub put : Weights → Addr → ℤ → Weights
put weights p w q = if p == q then some w else weights q

-- The implementations of `LoadBalancingAlgorithm`, each with its state.
pub data Algorithm : Type 0 where
  round_robin : ℕ → Algorithm
  weighted : Weights → Algorithm
  least_connections : Algorithm

unfoldable pub get_alive_backends : Heap → List Addr → List Addr
get_alive_backends heap backends = keep (λ p. is_alive (heap p)) backends

-- `alive` indexed beyond its end would be a panic, here `none`; `round_robin_next_lem` excludes it.
unfoldable pub round_robin_next : Heap → ℕ → List Addr → Option Addr × ℕ
round_robin_next heap current backends =
    let alive = get_alive_backends heap backends in
    if length alive == 0
    then (none, current)
    else (let next = (current + 1) % 2 ^ 64 in
        (get_elem? alive ((next + 2 ^ 64 - 1) % 2 ^ 64 % length alive), next))

-- The first loop: a weight of 0 for each backend that has none yet.
unfoldable pub init_weights : Weights → List Addr → Weights
init_weights weights [] = weights
init_weights weights (p ∷ ps) =
    init_weights (elim (weights p) [ none ↦ put weights p (pos 0) | some w ↦ weights ]) ps

-- A weight that is not positive counts as 1.
unfoldable pub effective_weight : Backend → ℤ
effective_weight b = if leb_ℤ b.weight (pos 0) then pos 1 else b.weight

-- The variables of the second loop.
pub record Scan : Type 0 where
  pub weights : Weights
  pub selected : Option Addr
  pub max_weight : ℤ
  pub total_weight : ℤ

unfoldable pub scan_one : Heap → Addr → Scan → Scan
scan_one heap p s =
    let weight = effective_weight (heap p) in
    let raised = add64 (weight_at s.weights p) weight in
    record s {
      weights = put s.weights p raised;
      total_weight = add64 s.total_weight weight;
      max_weight = if ltb_ℤ s.max_weight raised then raised else s.max_weight;
      selected = if ltb_ℤ s.max_weight raised then some p else s.selected;
    }

unfoldable pub scan : Heap → List Addr → Scan → Scan
scan heap [] s = s
scan heap (p ∷ ps) s = scan heap ps (scan_one heap p s)

abbrev pub first_scan : Weights → Scan
first_scan weights = record {
  weights = weights;
  selected = none;
  max_weight = negsuc 0;
  total_weight = pos 0;
}

-- The selected backend pays the total weight of the round.
abbrev pub settle : Scan → Option Addr → Option Addr × Weights
settle s none = (none, s.weights)
settle s (some p) = (some p, put s.weights p (sub64 (weight_at s.weights p) s.total_weight))

unfoldable pub weighted_next : Heap → Weights → List Addr → Option Addr × Weights
weighted_next heap weights backends =
    let alive = get_alive_backends heap backends in
    let s = scan heap alive (first_scan (init_weights weights alive)) in
    if length alive == 0 then (none, weights) else settle s s.selected

-- Whether the loop of least connections takes the backend, at the minimum so far.
unfoldable pub improves : Heap → Addr → ℤ → Bool
improves heap p min_connections =
    is_alive (heap p)
    && (eqb_ℤ min_connections (negsuc 0) || ltb_ℤ (get_connections (heap p)) min_connections)

-- The loop of least connections, with its two variables.
unfoldable pub least_from : Heap → List Addr → ℤ → Option Addr → Option Addr
least_from heap [] min_connections selected = selected
least_from heap (p ∷ ps) min_connections selected =
    let better = improves heap p min_connections in
    least_from heap ps (if better then get_connections (heap p) else min_connections)
      (if better then some p else selected)

unfoldable pub least_connections_next : Heap → List Addr → Option Addr
unfolding least_from improves
least_connections_next heap backends = least_from heap backends (negsuc 0) none

-- `NextBackend` of the interface.
unfoldable pub next_backend : Algorithm → Heap → List Addr → Option Addr × Algorithm
next_backend (round_robin current) heap backends =
    let (p, current') = round_robin_next heap current backends in (p, round_robin current')
next_backend (weighted weights) heap backends =
    let (p, weights') = weighted_next heap weights backends in (p, weighted weights')
next_backend least_connections heap backends =
    (least_connections_next heap backends, least_connections)

unfoldable pub name : Algorithm → String
name (round_robin current) = "Round Robin"
name (weighted weights) = "Weighted Round Robin"
name least_connections = "Least Connections"

unfoldable pub create_algorithm : String → Algorithm
create_algorithm algorithm_type =
    if str_eq algorithm_type "weighted"
    then weighted (λ p. none)
    else if str_eq algorithm_type "least-connections"
    then least_connections
    else round_robin 0
