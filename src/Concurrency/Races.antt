-- ===== src/Concurrency/Races.antt =====
-- backend.go: what can go wrong between two goroutines.
use load_balancer_comparison.Base.{◌≡◌, refl, true, arith}
use load_balancer_comparison.Base.Int.{pos, add64, leb_ℤ}
use load_balancer_comparison.Backend.{Time, Backend}
use load_balancer_comparison.Concurrency.{
  idle, add_error, lock_error, store_success, lock_success, Shared, pick, Reach, start, later,
}

-- When one more error would open the circuit, a request that succeeds while another one fails can
-- leave the circuit open with a count of 0 errors: the failure has counted before the success resets
-- the count, and opens the circuit after the success has closed it.
pub stale_error_opens :
    (b : Backend) (now : Time)
    → leb_ℤ b.max_consecutive_errors (add64 b.consecutive_errors (pos 1)) ≡ true
    → (s : Shared) × Reach 2 b s
      × (s.backend.circuit_open ≡ true)
      × (s.backend.consecutive_errors ≡ pos 0)
      × (s.pc 0 ≡ idle)
      × (s.pc 1 ≡ idle)
stale_error_opens b now h = (
  _,
  later
      (later
        (later (later start (pick 0 (omega arith) (add_error {now = now})))
          (pick 1 (omega arith) store_success))
        (pick 1 (omega arith) (lock_success refl)))
      (pick 0 (omega arith) (lock_error now refl)),
  rw h refl,
  refl,
  refl,
  refl,
)
