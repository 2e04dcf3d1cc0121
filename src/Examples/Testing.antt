-- ===== src/Examples/Testing.antt =====
-- The test backend at concrete values, with rates in percent for floating-point numbers.
use Prim.Native.String.{String}
use load_balancer_comparison.Base.{
  ◌+◌, ℕ, ◌≡◌, ◌≢◌, refl, ◌⊎◌, inl, ◌≤◌, ◌<◌, ◌==◌, ltb, true, false, List, [], ◌∷◌, some, none,
  arith, if◌then◌else◌,
}
use load_balancer_comparison.Base.Int.{pos, wrap64, ◌-ℤ◌, ◌+ℤ◌}
use load_balancer_comparison.Backend.{Addr}
use load_balancer_comparison.Store.{Store}
use load_balancer_comparison.Pool.{next_available_peer}
use load_balancer_comparison.Balancer.{Outcome, responded}
use load_balancer_comparison.Health.{health_check}
use load_balancer_comparison.TestBackend.{
  Backend, get_delay, should_fail_request, should_fail, log_request,
}
use load_balancer_comparison.TestBackend.Handlers.{
  handle_health, handle_root, handle_info, handle_control, act, health_sleep,
}
use load_balancer_comparison.TestBackend.Requests.{
  Request, root, health_check as check_health, info_page, control, serve, serve_all, reply_status,
}
use load_balancer_comparison.TestBackend.Delay.{get_delay_lem}
use load_balancer_comparison.TestBackend.Control.{post, fail_health_lasts, recover_lem}
use load_balancer_comparison.TestBackend.Refusals.{fail_requests_fails}
use load_balancer_comparison.TestBackend.Count.{counted, serve_all-request_count}
use load_balancer_comparison.TestBackend.Flags.{Flags, start, default_delay_runs}
use load_balancer_comparison.TestBackend.Probes.{probe_health, failing_backend_goes_down}
use load_balancer_comparison.TestBackend.Logging.{new_logging_response_writer, write_header, write}
use load_balancer_comparison.Health.Ends.{health_check_marks}
use load_balancer_comparison.Examples.Fleet.{pool, store, or_else, total_eq}
use load_balancer_comparison.Examples.Checking.{schedule, schedule-IsFair}

-- A fast backend that was started with a base delay of 10 ms: its maximum delay is 5 ms.
abbrev hasty_flags : Flags ℕ
hasty_flags = record {
  port = pos 3001;
  backend_type = "fast";
  base_delay = pos 10_000_000;
  max_delay = pos 0;
  payload_size = pos 0;
  error_rate = 0;
  start_healthy = true;
}

abbrev launch : Flags ℕ → Backend ℕ
launch = start ℕ (λ r. r == 0) 95 "" 0

abbrev hasty : Backend ℕ
hasty = launch hasty_flags

abbrev base : ℕ
base = 10_000_000

abbrev top : ℕ
top = 5_000_000

get_delay_lem_example :
    ((top ≡ 0) × (get_delay 7 hasty ≡ some (pos base)))
    ⊎ ((0 < top) × (top ≤ base) × (get_delay 7 hasty ≡ none))
    ⊎ ((base < top) × ((d : ℕ) × (get_delay 7 hasty ≡ some (pos d)) × (base ≤ d) × (d < top)))
unfolding start
get_delay_lem_example = get_delay_lem 7 base top hasty refl refl (omega arith) (omega arith)

-- It panics.
hasty_panics : (serve ℕ ltb 0 100 (root 50 7) hasty).0 ≡ none
unfolding start serve handle_root should_fail_request should_fail get_delay wrap64 ◌-ℤ◌
hasty_panics = refl

default_delay :
    (d : ℕ) × (get_delay 7 (launch (record hasty_flags { base_delay = pos 0 })) ≡ some (pos d))
    × (d < 500_000_000)
default_delay =
    default_delay_runs ℕ (λ r. r == 0) 95 7 "" 0 (record hasty_flags { base_delay = pos 0 }) refl
      refl

-- A request to be slow, one that is no JSON, and three others, of which the first panics.
abbrev others : List (Request ℕ)
others =
    control "POST" (some (record { action = "slow"; error_rate = 0; health_delay = pos 500 }))
    ∷ control "POST" none
    ∷ root 50 7
    ∷ check_health
    ∷ info_page
    ∷ []

fail_health_lasts_example :
    (handle_health ℕ ltb 0 100
      (serve_all ℕ ltb 0 100 others (post ℕ ltb 0 100 "fail_health" 0 (pos 0) hasty))).0.status
    ≡ 503
fail_health_lasts_example =
    fail_health_lasts ℕ ltb 0 100 0 (pos 0) hasty others (refl, (tt, (tt, (tt, (tt, tt)))))

hasty_recovers :
    let b' = post ℕ ltb 0 100 "recover" 0 (pos 0) hasty in
    ((handle_health ℕ ltb 0 100 b').0.status ≡ 200)
    × (should_fail_request ℕ ltb 0 50 b' ≡ ltb 50 hasty.error_rate)
hasty_recovers = recover_lem ℕ ltb 0 100 0 50 (pos 0) hasty

-- Two requests that do not change that, and one to be slow.
abbrev asked_since : List (Request ℕ)
asked_since =
    root 50 7
    ∷ control "POST" (some (record { action = "slow"; error_rate = 0; health_delay = pos 500 }))
    ∷ control "GET" (some (record { action = "status"; error_rate = 0; health_delay = pos 0 }))
    ∷ []

fail_requests_fails_example :
    let b' = post ℕ ltb 0 100 "fail_requests" 0 (pos 0) hasty in
    let later = serve_all ℕ ltb 0 100 asked_since b' in
    (reply_status (serve ℕ ltb 0 100 (root 50 7) later).0 ≡ some 500)
    × ((handle_health ℕ ltb 0 100 b').0.status ≡ (handle_health ℕ ltb 0 100 hasty).0.status)
fail_requests_fails_example =
    fail_requests_fails ℕ ltb 0 100 0 50 (pos 0) 7 hasty asked_since refl refl refl
      (tt, ((refl, refl), ((refl, refl), tt)))

serve_all-request_count_example :
    (serve_all ℕ ltb 0 100 others hasty).request_count ≡ pos (0 + counted ℕ ltb 0 100 others hasty)
unfolding start
serve_all-request_count_example =
    serve_all-request_count ℕ ltb 0 100 others hasty 0 refl (omega arith)

two_counted : (serve_all ℕ ltb 0 100 others hasty).request_count ≡ pos 2
unfolding start serve_all serve handle_root handle_info handle_health handle_control act
    should_fail_request should_fail get_delay log_request wrap64 ◌-ℤ◌ ◌+ℤ◌
two_counted = refl

-- The failing backend behind the first address; the other one answers.
abbrev failing_network : Addr → String → Outcome
failing_network p url =
    if p == 0
    then probe_health ℕ ltb 0 100
        (serve_all ℕ ltb 0 100 others (post ℕ ltb 0 100 "fail_health" 0 (pos 0) hasty))
    else responded 200

abbrev after : Store
after = or_else (health_check failing_network schedule pool store) store

after_check : health_check failing_network schedule pool store ≡ some after
after_check =
    let (s', e, marks) = health_check_marks failing_network schedule pool store schedule-IsFair in
    total_eq (health_check failing_network schedule pool store) store s' e

failing_backend_goes_down_example :
    ((after.heap 0).alive ≡ false) × ((next_available_peer pool after).0 ≢ some 0)
unfolding start serve_all serve handle_root handle_info handle_health handle_control act
    should_fail_request should_fail get_delay log_request health_sleep wrap64 ◌-ℤ◌ ◌+ℤ◌
failing_backend_goes_down_example =
    failing_backend_goes_down ℕ ltb 0 100 failing_network schedule pool store after 0 0 (pos 0)
      hasty others schedule-IsFair (inl refl) (refl, (tt, (tt, (tt, (tt, tt))))) refl refl
      after_check

-- The last status is logged, the first one was sent.
logged_twice :
    let w = write 12 (write_header 503 (write_header 200 (new_logging_response_writer none))) in
    (w.status ≡ 503) × (w.sent ≡ some 200) × (w.size ≡ pos 12)
unfolding new_logging_response_writer write_header write wrap64 ◌+ℤ◌
logged_twice = (refl, refl, refl)
