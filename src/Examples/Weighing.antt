-- ===== src/Examples/Weighing.antt =====
-- Weighted round robin at concrete inputs: a full cycle, and how a backend comes to starve.
use load_balancer_comparison.Base.{
  ℕ, ◌+◌, ◌*◌, ◌<◌, ◌≡◌, refl, sym, inl, inr, ◌==◌, false, none, some, [], ◌∷◌, In, if◌then◌else◌,
  arith,
}
use mathlib.Core.Path.{subst}
use load_balancer_comparison.Base.Int.{pos, negsuc, InInt64}
use load_balancer_comparison.Backend.{Addr, set_alive}
use load_balancer_comparison.Algorithms.{
  Heap, Weights, weight_at, weighted_next, get_alive_backends,
}
use load_balancer_comparison.Algorithms.Weighted.{Distinct, Room, share, total, raised}
use load_balancer_comparison.Algorithms.Weighted.Round.{Outcome, Picked, weighted_next_lem}
use load_balancer_comparison.Algorithms.Weighted.Sums.{weighted_next_picks}
use load_balancer_comparison.Algorithms.Weighted.Tally.{rounds, picked_times}
use load_balancer_comparison.Algorithms.Weighted.Share.{weighted_share_bound, weighted_full_cycle}
use load_balancer_comparison.Algorithms.Weighted.Starvation.{lone_backend_starves, Unpicked}
use load_balancer_comparison.Examples.Fleet.{fleet, two_backends, whole}

abbrev no_weights : Weights
no_weights p = none

six_rounds :
    (rounds fleet two_backends 6 no_weights).0
    ≡ some 0 ∷ some 0 ∷ some 1 ∷ some 0 ∷ some 0 ∷ some 0 ∷ []
unfolding whole
six_rounds = refl

fleet-Distinct : Distinct (get_alive_backends fleet two_backends)
unfolding whole
fleet-Distinct = (apart, ((λ m. m), tt))
  where
    apart : ¬ In {A = ℕ} 0 (1 ∷ [])
    apart (inl e) = omega arith
    apart (inr m) = elim m [ ]

fleet-Room : Room fleet no_weights (get_alive_backends fleet two_backends)
unfolding whole share
fleet-Room = record { each = each; all = omega arith }
  where
    each : (q : Addr) → In q (0 ∷ 1 ∷ []) → InInt64 (raised fleet no_weights q)
    each q (inl e) = subst (λ r. InInt64 (raised fleet no_weights r)) (sym e) (omega arith)
    each q (inr (inl e)) = subst (λ r. InInt64 (raised fleet no_weights r)) (sym e) (omega arith)
    each q (inr (inr m)) = elim m [ ]

weighted_next_lem_example :
    Outcome fleet no_weights
      (get_alive_backends fleet two_backends)
      (weighted_next fleet no_weights two_backends)
weighted_next_lem_example =
    weighted_next_lem fleet no_weights two_backends fleet-Distinct fleet-Room

picks_first :
    let (choice, weights') = weighted_next fleet no_weights two_backends in
    (p : Addr) × (choice ≡ some p)
    × Picked fleet no_weights (get_alive_backends fleet two_backends) p weights'
unfolding whole
picks_first =
    weighted_next_picks fleet no_weights two_backends fleet-Distinct fleet-Room (omega arith)
      (omega arith)

weighted_share_bound_example :
    let alive = get_alive_backends fleet two_backends in
    total fleet alive * picked_times 1 (rounds fleet two_backends 4 no_weights).0
    < 4 * share fleet 1 + total fleet alive
unfolding whole share
weighted_share_bound_example =
    weighted_share_bound fleet two_backends 4 no_weights 1 fleet-Distinct (omega arith)
      (λ r m. refl) (inr (inl refl))

weighted_full_cycle_example :
    let alive = get_alive_backends fleet two_backends in
    let (history, weights') = rounds fleet two_backends (total fleet alive) no_weights in
    (picked_times 0 history ≡ share fleet 0) × (weight_at weights' 0 ≡ pos 0)
unfolding whole share
weighted_full_cycle_example =
    weighted_full_cycle fleet two_backends no_weights 0 fleet-Distinct (omega arith) (λ r m. refl)
      (inl refl)

-- After four calls the second backend owes 2. If the first goes down now, the next call finds the
-- second alone, and returns no backend.
abbrev four_calls : Weights
four_calls = (rounds fleet two_backends 4 no_weights).1

abbrev first_down : Heap
first_down p = if p == 0 then set_alive (fleet 0) false else fleet p

second_owes : weight_at four_calls 1 ≡ negsuc 1
unfolding whole
second_owes = refl

lone_backend_starves_example :
    Unpicked first_down 1 1 1 (rounds first_down two_backends 1 four_calls)
unfolding whole share
lone_backend_starves_example =
    lone_backend_starves first_down two_backends four_calls 1 1 1 refl second_owes (omega arith)
      (omega arith)
