-- ===== src/Examples/Checking.antt =====
-- A health check at a concrete pool: one backend answers its health address, the other does not.
use Prim.Native.String.{String}
use load_balancer_comparison.Base.{
  zero, suc, ◌≡◌, refl, ◌==◌, if◌then◌else◌, true, false, List, [], ◌∷◌, some, All, arith,
}
use load_balancer_comparison.Base.Int.{pos}
use load_balancer_comparison.Health.{health_checking}
use load_balancer_comparison.Health.Rounds.{Leaves, health_checking_marks}
use load_balancer_comparison.Backend.{Addr}
use load_balancer_comparison.Store.{Store}
use load_balancer_comparison.Balancer.{Outcome, responded, failed}
use load_balancer_comparison.Pool.{get_backends, next_available_peer}
use load_balancer_comparison.Health.{
  Event, turn, traffic, fails, looks, is_backend_alive, advance, take_turn, happen, run_tasks,
  all_done, health_check, perform,
}
use load_balancer_comparison.Health.Ends.{IsFair, health_check_marks, chosen_passed_probe}
use load_balancer_comparison.Examples.Fleet.{or_else, total_eq, pool, store, whole}

-- The first backend fails at both addresses; the second has no health address but answers.
abbrev probes : Addr → String → Outcome
probes p url = if p == 0 then failed "connection refused" else responded 204

abbrev pub both : List Event → List Event
both es = turn 1 ∷ traffic fails 1 ∷ turn 0 ∷ traffic looks 0 ∷ es

abbrev pub schedule : List Event
schedule = both (both (both (both (both (both (both (both [])))))))

pub schedule-IsFair : IsFair 2 schedule
schedule-IsFair zero h = omega arith
schedule-IsFair (suc zero) h = omega arith
schedule-IsFair (suc (suc j)) h = omega arith

abbrev after : Store
after = or_else (health_check probes schedule pool store) store

health_check_marks_example :
    (s' : Store) × (health_check probes schedule pool store ≡ some s')
    × All (λ p. (s'.heap p).alive ≡ is_backend_alive (probes p) (store.heap p).url) (0 ∷ 1 ∷ [])
health_check_marks_example = health_check_marks probes schedule pool store schedule-IsFair

marked_so : ((after.heap 0).alive ≡ false) × ((after.heap 1).alive ≡ true)
unfolding whole is_backend_alive advance take_turn happen run_tasks all_done health_check perform
    get_backends
marked_so = (refl, refl)

returns : health_check probes schedule pool store ≡ some after
returns =
    let (s', e, marks) = health_check_marks probes schedule pool store schedule-IsFair in
    total_eq (health_check probes schedule pool store) store s' e

chosen : (next_available_peer pool after).0 ≡ some 1
unfolding whole is_backend_alive advance take_turn happen run_tasks all_done health_check perform
    get_backends
chosen = refl

chosen_passed_probe_example : is_backend_alive (probes 1) (store.heap 1).url ≡ true
chosen_passed_probe_example =
    chosen_passed_probe probes schedule pool store after 1 schedule-IsFair returns chosen

-- Both backends answer when the next check asks them.
abbrev recovered : Addr → String → Outcome
recovered p url = responded 200

health_checking_marks_example :
    Leaves recovered pool store
      (health_checking (pos 30) (schedule, probes) ((schedule, recovered) ∷ []) pool store)
health_checking_marks_example =
    health_checking_marks 30 (schedule, probes) [] schedule recovered pool store (omega arith)
      (omega arith) (schedule-IsFair, tt) schedule-IsFair
