-- ===== src/Examples/Breaking.antt =====
-- The circuit breaker at concrete inputs.
use load_balancer_comparison.Base.{◌≡◌, refl, true, false, List, [], ◌∷◌, ◌++◌, map, arith}
use load_balancer_comparison.Base.Int.{ℤ, pos, leb_ℤ, ◌≤ℤ◌}
use load_balancer_comparison.Backend.{Time}
use load_balancer_comparison.Backend.Breaker.{
  Represents, run, log_run, Event, failure, success, look, failure_count, run-Represents,
  open_needs_failures, failures-circuit_open, step,
}
use load_balancer_comparison.Examples.Fleet.{server, whole}

abbrev limit : ℤ
limit = pos 10

abbrev timeout : ℤ
timeout = pos 30_000_000_000

new-Represents : Represents limit timeout [] (server 0 (pos 1))
new-Represents = record {
  counted = refl;
  opened = refl;
  stamped = refl;
  limited = refl;
  timed = refl;
}

abbrev ten_times : List Time
ten_times = 1 ∷ 2 ∷ 3 ∷ 4 ∷ 5 ∷ 6 ∷ 7 ∷ 8 ∷ 9 ∷ 10 ∷ []

abbrev ten_failures : List Event
ten_failures = map failure ten_times

ten_open : (run (server 0 (pos 1)) (success ∷ ten_failures)).circuit_open ≡ true
unfolding run step whole
ten_open = refl

-- A look within the timeout finds it open, one after it closes it.
still_open :
    (run
      (server 0 (pos 1))
      (success ∷ map failure ten_times ++ look 30_000_000_010 ∷ [])).circuit_open
    ≡ true
unfolding run step whole
still_open = refl

timed_out :
    (run
      (server 0 (pos 1))
      (success ∷ map failure ten_times ++ look 30_000_000_011 ∷ [])).circuit_open
    ≡ false
unfolding run step whole
timed_out = refl

run-Represents_example :
    Represents limit timeout
      (log_run limit timeout [] (failure 7 ∷ look 9 ∷ success ∷ []))
      (run (server 0 (pos 1)) (failure 7 ∷ look 9 ∷ success ∷ []))
run-Represents_example =
    run-Represents limit timeout [] (server 0 (pos 1)) (failure 7 ∷ look 9 ∷ success ∷ [])
      (omega arith) new-Represents

open_needs_failures_example : limit ≤ℤ pos (failure_count ten_failures)
open_needs_failures_example =
    open_needs_failures limit timeout [] (server 0 (pos 1)) ten_failures (omega arith)
      new-Represents ten_open

failures-circuit_open_example :
    let after = run (server 0 (pos 1)) (map failure (1 ∷ 2 ∷ [])) in
    (after.circuit_open ≡ leb_ℤ limit (pos 2)) × (after.consecutive_errors ≡ pos 2)
failures-circuit_open_example =
    failures-circuit_open limit timeout [] (server 0 (pos 1)) 1 (2 ∷ []) (omega arith)
      new-Represents
