-- ===== src/TestBackend.antt =====
-- TestBackend/backend.go: the server that the load balancer is tried out on. Floating-point numbers
-- are a parameter with their comparison. The handlers do not sleep.
pub mod Delay
pub mod Handlers
pub mod Requests
pub mod Control
pub mod Refusals
pub mod Count
pub mod Flags
pub mod Probes
pub mod Logging
use Prim.Native.String.{String}
use load_balancer_comparison.Base.{ℕ, ◌%◌, Bool, true, false, Option, none, some, if◌then◌else◌}
use load_balancer_comparison.Base.Int.{ℤ, pos, pos_part, add64, sub64, leb_ℤ, eqb_ℤ}
use load_balancer_comparison.Backend.{Time}

pub record FailureMode (F : Type 0) : Type 0 where
  pub health_check_fails : Bool
  pub requests_fail : Bool
  pub partial_failure : F
  pub slow_responses : Bool
  pub health_check_delay : ℤ

pub record Backend (F : Type 0) : Type 0 where
  pub port : ℤ
  pub backend_type : String
  pub base_delay : ℤ
  pub max_delay : ℤ
  pub payload_size : ℤ
  pub error_rate : F
  pub request_count : ℤ
  pub start_time : Time
  pub hostname : String
  pub failure_mode : Option (FailureMode F)
  pub is_healthy : Bool

-- `now` is what `time.Now` returns.
unfoldable pub new_backend : {F : Type 0} → ℤ → String → ℤ → ℤ → ℤ → F → String → Time → Backend F
new_backend port backend_type base_delay max_delay payload_size error_rate hostname now = record {
  port = port;
  backend_type = backend_type;
  base_delay = base_delay;
  max_delay = max_delay;
  payload_size = payload_size;
  error_rate = error_rate;
  request_count = pos 0;
  start_time = now;
  hostname = hostname;
  failure_mode = none;
  is_healthy = true;
}

-- `LogRequest`, whose log line is left out.
unfoldable pub log_request : {F : Type 0} → Backend F → Backend F
log_request b = record b { request_count = add64 b.request_count (pos 1) }

unfoldable pub get_request_count : {F : Type 0} → Backend F → ℤ
get_request_count b = b.request_count

-- `rand.Int63n`, which panics (`none`) on a bound that is not positive; `r` is the raw random number.
abbrev pub int63n : ℕ → ℤ → Option ℤ
int63n r n = if leb_ℤ n (pos 0) then none else some (pos (r % pos_part n))

abbrev pub delay_after : ℤ → Option ℤ → Option ℤ
delay_after base none = none
delay_after base (some d) = some (add64 base d)

unfoldable pub get_delay : {F : Type 0} → ℕ → Backend F → Option ℤ
get_delay r b =
    if eqb_ℤ b.max_delay (pos 0)
    then some b.base_delay
    else delay_after b.base_delay (int63n r (sub64 b.max_delay b.base_delay))

-- `lower` is the comparison `<` of float64 and `zero_rate` is 0.0; `draw` is what `rand.Float64`
-- returns.
module _ (F : Type 0) (lower : F → F → Bool) (zero_rate : F) where
  unfoldable pub should_fail : F → Backend F → Bool
  should_fail draw b = lower draw b.error_rate

  unfoldable pub should_fail_request : F → Backend F → Bool
  unfolding should_fail
  should_fail_request draw b = elim b.failure_mode [
    | none ↦ should_fail draw b
    | some m ↦
        if m.requests_fail
        then if lower zero_rate m.partial_failure then lower draw m.partial_failure else true
        else should_fail draw b
  ]
