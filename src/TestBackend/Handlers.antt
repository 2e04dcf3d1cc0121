-- ===== src/TestBackend/Handlers.antt =====
-- TestBackend/handlers.go: what the test backend answers. The handlers do not sleep here; how long that
-- of the health check would is `health_sleep`. The times, constant texts and the backend's
-- host and port are left out of the bodies.
use Prim.Native.String.{String}
use text.Mathlib.Text.{◌==◌ as str_eq}
use load_balancer_comparison.Base.{
  ℕ, ◌*◌, Bool, true, false, not, ◌||◌, Option, none, some, if◌then◌else◌,
}
use load_balancer_comparison.Base.Int.{ℤ, pos, pos_part, add64, wrap64, ltb_ℤ}
use load_balancer_comparison.TestBackend.{
  FailureMode, Backend, log_request, get_request_count, get_delay, should_fail_request,
}

-- The bodies: an error's text, and the objects of `HandleRoot` (its payload by its size),
-- `HandleHealth` (`none` for the count of an unhealthy backend), `HandleInfo` and `HandleControl`.
pub data Body (F : Type 0) : Type 0 where
  error_text : String → Body F
  hello : (backend_type : String) → (request_id : ℤ) → (payload : Option ℤ) → Body F
  health : (requests : Option ℤ) → Body F
  info :
      (requests base_delay max_delay payload_size : ℤ)
      → (error_rate : F) → (is_healthy : Bool) → (failure_mode : Option (FailureMode F)) → Body F
  done : (action : String) → Body F

pub record Reply (F : Type 0) : Type 0 where
  pub status : ℕ
  pub body : Body F

-- The body of a request to /control.
pub record ControlRequest (F : Type 0) : Type 0 where
  pub action : String
  pub error_rate : F
  pub health_delay : ℤ

-- `&FailureMode{}`: all fields are zero.
abbrev pub no_failure : {F : Type 0} → F → FailureMode F
no_failure zero_rate = record {
  health_check_fails = false;
  requests_fail = false;
  partial_failure = zero_rate;
  slow_responses = false;
  health_check_delay = pos 0;
}

abbrev pub mode_or : {F : Type 0} → Option (FailureMode F) → FailureMode F → FailureMode F
mode_or none m = m
mode_or (some m) other = m

abbrev pub health_check_fails_now : {F : Type 0} → Option (FailureMode F) → Bool
health_check_fails_now none = false
health_check_fails_now (some m) = m.health_check_fails

-- How long `HandleHealth` sleeps before it looks at anything else.
unfoldable pub health_sleep : {F : Type 0} → Option (FailureMode F) → ℤ
health_sleep none = pos 0
health_sleep (some m) = if ltb_ℤ (pos 0) m.health_check_delay then m.health_check_delay else pos 0

-- What is answered after the switch: an unknown action leaves only the mode that was made.
abbrev pub controlled :
    {F : Type 0} → String → FailureMode F → Backend F → Option (Backend F) → Reply F × Backend F
controlled action m b none = (
  record { status = 400; body = error_text "Unknown action" },
  record b { failure_mode = some m },
)
controlled action m b (some b') = (record { status = 200; body = done action }, b')

-- What `HandleRoot` answers once it has slept; `none` when the delay panics.
abbrev pub greet : {F : Type 0} → Backend F → Option ℤ → Option (Reply F × Backend F)
greet b none = none
greet b (some delay) = some (
  record {
    status = 200;
    body =
        hello b.backend_type (add64 (get_request_count b) (pos 1))
          (if ltb_ℤ (pos 0) b.payload_size then some b.payload_size else none);
  },
  log_request b,
)

-- `zero_rate` and `full_rate` are 0.0 and 1.0.
module _ (F : Type 0) (lower : F → F → Bool) (zero_rate full_rate : F) where
  -- `none`: the handler panics, which ends the connection. `raw` is the random number for the delay.
  unfoldable pub handle_root : F → ℕ → Backend F → Option (Reply F × Backend F)
  unfolding should_fail_request get_delay log_request get_request_count
  handle_root draw raw b =
      if should_fail_request F lower zero_rate draw b
      then some (
        record { status = 500; body = error_text "Backend temporarily unavailable" },
        log_request b,
      )
      else greet b (get_delay raw b)

  unfoldable pub handle_health : Backend F → Reply F × Backend F
  unfolding log_request get_request_count
  handle_health b =
      if health_check_fails_now b.failure_mode || not b.is_healthy
      then (record { status = 503; body = health none }, log_request b)
      else (
        record { status = 200; body = health (some (get_request_count (log_request b))) },
        log_request b,
      )

  unfoldable pub handle_info : Backend F → Reply F × Backend F
  unfolding log_request get_request_count
  handle_info b = (
    record {
      status = 200;
      body =
          info (get_request_count b) b.base_delay b.max_delay b.payload_size b.error_rate
            b.is_healthy b.failure_mode;
    },
    log_request b,
  )

  -- The switch of `HandleControl`; `none` for an unknown action.
  unfoldable pub act : ControlRequest F → FailureMode F → Backend F → Option (Backend F)
  act req m b =
      if str_eq req.action "fail_health"
      then some (record b {
        failure_mode = some (record m { health_check_fails = true });
        is_healthy = false;
      })
      else if str_eq req.action "fail_requests"
      then some (record b {
        failure_mode = some (record m {
          requests_fail = true;
          partial_failure = if lower zero_rate req.error_rate then req.error_rate else full_rate;
        });
      })
      else if str_eq req.action "slow"
      then some (record b {
        failure_mode = some (record m {
          slow_responses = true;
          health_check_delay =
              if ltb_ℤ (pos 0) req.health_delay
              then wrap64 (pos (pos_part req.health_delay * 1_000_000))
              else m.health_check_delay;
        });
      })
      else if str_eq req.action "recover"
      then some (record b { failure_mode = some (no_failure zero_rate); is_healthy = true })
      else none

  -- The request's body is `none` if it is no JSON.
  unfoldable pub handle_control :
      String → Option (ControlRequest F) → Backend F → Reply F × Backend F
  unfolding act
  handle_control method body b =
      if not (str_eq method "POST")
      then (record { status = 405; body = error_text "Only POST allowed" }, b)
      else elim body [
        | none ↦ (record { status = 400; body = error_text "Invalid JSON" }, b)
        | some req ↦
            let m = mode_or b.failure_mode (no_failure zero_rate) in
            controlled req.action m b (act req m b)
      ]
