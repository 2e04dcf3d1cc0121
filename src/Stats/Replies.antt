-- ===== src/Stats/Replies.antt =====
-- loadbalancer.go: the status that an endpoint answers.
use mathlib.Core.Path.{subst}
use load_balancer_comparison.Base.{◌≡◌, sym, ℕ, ◌==◌, length, some, none, if◌then◌else◌, arith}
use load_balancer_comparison.Store.{Store}
use load_balancer_comparison.Store.Looks.{Eases}
use load_balancer_comparison.Pool.{get_backends}
use load_balancer_comparison.Balancer.{System, client, http_error, write_header}
use load_balancer_comparison.Stats.{
  percentage, get_stats, circuit_report, send_json, health_endpoint, stats_endpoint,
  circuit_breaker_status,
}
use load_balancer_comparison.Stats.Report.{get_stats_lem}
use load_balancer_comparison.Stats.Circuits.{circuit_report_lem}

-- A client that has asked for a report has been answered: 500 if the pool is empty, else 200. The
-- backends changed only by looks at their circuits.
abbrev pub Reported : System → System → Type 0
Reported sys sys' =
    (sys'.response ≡ some (if length sys.pool.backends == 0 then 500 else 200))
    × Eases sys.store sys'.store
    × (sys'.sent ≡ sys.sent)

send_json_lem :
    (part total : ℕ) (sys : System)
    → sys.response ≡ none
    → let sys' = send_json (percentage part total) client sys in
      (sys'.response ≡ some (if total == 0 then 500 else 200))
      × (sys'.store ≡ sys.store)
      × (sys'.sent ≡ sys.sent)
unfolding send_json percentage http_error write_header
send_json_lem part total sys fresh = ground arith

report_with :
    (part : ℕ) (sys : System) (s' : Store)
    → sys.response ≡ none
    → Eases sys.store s'
    → Reported sys
        (send_json (percentage part (length sys.pool.backends)) client (record sys { store = s' }))
report_with part sys s' fresh e =
    let (status, same_store, same_sent) =
      send_json_lem part (length sys.pool.backends) (record sys { store = s' }) fresh in
    (status, subst (Eases sys.store) (sym same_store) e, same_sent)

-- The three endpoints with reports answer a client that has not been sent a status: with 500 if the
-- pool is empty, since the percentage is then NaN and cannot be encoded, and with 200 otherwise. They
-- forward nothing, and change no backend but by closing open circuits whose timeout since the last
-- error had passed at a reading of the clock that they took.
pub endpoints_report :
    (sys : System)
    → sys.response ≡ none
    → Reported sys (health_endpoint client sys)
      × Reported sys (stats_endpoint client sys)
      × Reported sys (circuit_breaker_status client sys)
unfolding health_endpoint stats_endpoint circuit_breaker_status get_stats circuit_report
    get_backends
endpoints_report sys fresh =
    let stats_ease : Eases sys.store (get_stats sys.pool sys.store).1 =
      (get_stats_lem sys.pool sys.store).6 in
    let circuits_ease : Eases sys.store (circuit_report sys.pool sys.store).1 =
      (circuit_report_lem sys.pool sys.store).5 in
    (
      report_with _ sys _ fresh stats_ease,
      report_with _ sys _ fresh stats_ease,
      report_with _ sys _ fresh circuits_ease,
    )
