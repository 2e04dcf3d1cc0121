-- ===== src/Examples/Racing.antt =====
-- Goroutines at one backend that is one error away from an open circuit.
use load_balancer_comparison.Base.{◌≡◌, refl, true, arith}
use load_balancer_comparison.Base.Int.{pos, wrap64, ◌+ℤ◌}
use load_balancer_comparison.Backend.{Backend, record_error, add_connection}
use load_balancer_comparison.Concurrency.{
  fails, Shared, pick, Reach, start, later, idle, connect, add_error, lock_error,
}
use load_balancer_comparison.Concurrency.Connections.{connected_now, Reach-connections}
use load_balancer_comparison.Concurrency.Alone.{OneStep, ended, goes_on, alone_lem}
use load_balancer_comparison.Concurrency.Races.{stale_error_opens}
use load_balancer_comparison.Examples.Fleet.{server}

abbrev weak : Backend
weak = record (server 0 (pos 1)) { consecutive_errors = pos 9 }

-- Both goroutines connect, the second records an error and connects again for its retry.
abbrev busy : (s : Shared) × Reach 2 weak s
busy = (
  _,
  later
      (later
        (later (later (later start (pick 0 (omega arith) connect)) (pick 1 (omega arith) connect))
          (pick 1 (omega arith) (add_error {now = 5})))
        (pick 1 (omega arith) (lock_error 5 refl)))
      (pick 1 (omega arith) connect),
)

Reach-connections_example : busy.0.backend.connections ≡ pos (connected_now 2 busy.0.connected)
Reach-connections_example = Reach-connections 2 weak refl busy.1 (omega arith)

three_connections : busy.0.backend.connections ≡ pos 3
unfolding wrap64 ◌+ℤ◌ add_connection
three_connections = refl

alone_lem_example : OneStep (fails 5) weak (record_error weak 5)
unfolding record_error
alone_lem_example =
    alone_lem {m = fails 5} {b = weak} {readers = 0} {c = 1} {c1 = 1} add_error
      (goes_on {readers = 0} {c = 1} {c1 = 1} refl (lock_error 5 refl) (ended refl))

stale_error_opens_example :
    (s : Shared) × Reach 2 weak s
    × (s.backend.circuit_open ≡ true)
    × (s.backend.consecutive_errors ≡ pos 0)
    × (s.pc 0 ≡ idle)
    × (s.pc 1 ≡ idle)
unfolding wrap64 ◌+ℤ◌
stale_error_opens_example = stale_error_opens weak 5 refl
