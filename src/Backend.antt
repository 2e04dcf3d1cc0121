-- ===== src/Backend.antt =====
-- Go-LoadBalancer/backend.go: one backend server and its circuit breaker, as a value. A method that
-- writes through its receiver returns the new backend; `Store` holds the backends that are shared.
-- The mutexes and atomic instructions make each method one step.
pub mod Breaker
use Prim.Native.String.{String}
use load_balancer_comparison.Base.{
  ℕ, ◌-◌, ◌^◌, ◌*◌, Bool, true, false, Option, none, some, ltb, if◌then◌else◌,
}
use load_balancer_comparison.Base.Int.{ℤ, pos, negsuc, sub_ℕ, add64, ltb_ℤ, leb_ℤ}

-- A pointer to a backend.
abbrev pub Addr : Type 0
Addr = ℕ

-- A reading of the clock, in nanoseconds; the zero `time.Time` is 0.
abbrev pub Time : Type 0
Time = ℕ

-- `Time.Sub`: the difference as a `time.Duration`, which saturates at the ends of int64.
unfoldable pub time_sub : Time → Time → ℤ
time_sub t u =
    let d : ℤ = sub_ℕ t u in
    if ltb_ℤ (pos (2 ^ 63 - 1)) d
    then pos (2 ^ 63 - 1)
    else if ltb_ℤ d (negsuc (2 ^ 63 - 1))
    then negsuc (2 ^ 63 - 1)
    else d

-- `error_handler` is the backend that the closure in `ReverseProxy.ErrorHandler` has captured, and
-- `none` while the proxy still has its default handler.
pub record Backend : Type 0 where
  pub url : String
  pub alive : Bool
  pub error_handler : Option Addr
  pub weight : ℤ
  pub connections : ℤ
  pub consecutive_errors : ℤ
  pub last_error_time : Time
  pub circuit_open : Bool
  pub max_consecutive_errors : ℤ
  pub circuit_timeout : ℤ

unfoldable pub set_alive : Backend → Bool → Backend
set_alive b alive = record b { alive = alive }

unfoldable pub is_alive : Backend → Bool
is_alive b = b.alive

-- The circuit is looked at when the clock reads `now`: one that has timed out is closed on the way.
unfoldable pub is_circuit_open : Backend → Time → Bool × Backend
unfolding time_sub
is_circuit_open b now =
    if b.circuit_open
    then if ltb_ℤ b.circuit_timeout (time_sub now b.last_error_time)
      then (false, record b { circuit_open = false; consecutive_errors = pos 0 })
      else (true, b)
    else (false, b)

unfoldable pub record_success : Backend → Backend
record_success b = record b { consecutive_errors = pos 0; circuit_open = false }

unfoldable pub record_error : Backend → Time → Backend
record_error b now =
    let errors = add64 b.consecutive_errors (pos 1) in
    record b {
      consecutive_errors = errors;
      last_error_time = now;
      circuit_open = if leb_ℤ b.max_consecutive_errors errors then true else b.circuit_open;
    }

unfoldable pub get_consecutive_errors : Backend → ℤ
get_consecutive_errors b = b.consecutive_errors

unfoldable pub add_connection : Backend → Backend
add_connection b = record b { connections = add64 b.connections (pos 1) }

unfoldable pub remove_connection : Backend → Backend
remove_connection b = record b { connections = add64 b.connections (negsuc 0) }

unfoldable pub get_connections : Backend → ℤ
get_connections b = b.connections

-- A result with Go's `error`, kept as its text.
pub data Result {ℓ} (A : Type ℓ) : Type ℓ where
  ok : A → Result A
  err : String → Result A

infixl 5 ◌>>=◌
abbrev pub ◌>>=◌ {ℓ κ} : {A : Type ℓ} {B : Type κ} → Result A → (A → Result B) → Result B
ok a >>= f = f a
err e >>= f = err e

-- One second as a `time.Duration`.
abbrev pub second : ℕ
second = 1_000_000_000

-- `url.Parse` is the parameter `parse`, which yields the text of the parsed address.
module _ (parse : String → Result String) where
  unfoldable pub new_backend : String → ℤ → Result Backend
  new_backend server_url weight = do
    u ← parse server_url
    ok (record {
      url = u;
      alive = true;
      error_handler = none;
      weight = weight;
      connections = pos 0;
      consecutive_errors = pos 0;
      last_error_time = 0;
      circuit_open = false;
      max_consecutive_errors = pos 10;
      circuit_timeout = pos (30 * second);
    })

  unfoldable pub new_backend_with_circuit_config : String → ℤ → ℤ → ℤ → Result Backend
  unfolding new_backend
  new_backend_with_circuit_config server_url weight max_errors timeout = do
    backend ← new_backend server_url weight
    ok (record backend { max_consecutive_errors = max_errors; circuit_timeout = timeout })
