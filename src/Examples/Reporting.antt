-- ===== src/Examples/Reporting.antt =====
-- The reports about a concrete pool whose first backend is down.
use load_balancer_comparison.Base.{
  some, true, ◌==◌, if◌then◌else◌, ◌≡◌, refl, ◌≤◌, ◌+◌, false, [], ◌∷◌, All, In, keep, length,
}
use load_balancer_comparison.Base.Int.{pos}
use load_balancer_comparison.Backend.{set_alive}
use load_balancer_comparison.Store.{Store, modify}
use load_balancer_comparison.Store.Looks.{Eases}
use load_balancer_comparison.Pool.{get_backends, get_pool_summary}
use load_balancer_comparison.Balancer.{client, System}
use load_balancer_comparison.Stats.{
  send_json, BackendInfo, describe, describe_all, get_stats, percentage, take_census, census_step,
  describe_circuit, circuit_report, health_endpoint, stats_endpoint, circuit_breaker_status,
}
use load_balancer_comparison.Stats.Counts.{get_pool_summary_bounds}
use load_balancer_comparison.Stats.Report.{DescribesAll, IsConsistent, get_stats_lem}
use load_balancer_comparison.Stats.Circuits.{keys, circuit_report_lem}
use load_balancer_comparison.Stats.Replies.{Reported, endpoints_report}
use load_balancer_comparison.Examples.Fleet.{fleet, server, pool, store, system, whole}

abbrev half_down : Store
half_down = modify (λ b. set_alive b false) 0 store

counted :
    ((get_stats pool half_down).0.alive_backends ≡ 1)
    × ((circuit_report pool half_down).0.1.circuits_closed ≡ 2)
    × (length (circuit_report pool half_down).0.0 ≡ 1)
unfolding whole get_stats describe_all describe get_backends percentage circuit_report take_census
    census_step describe_circuit
counted = (refl, refl, refl)

half_down_summary :
    let c = (get_pool_summary pool half_down).0 in
    (c.total ≡ 2)
    × (c.available ≤ c.alive)
    × (c.available ≤ c.circuits_closed)
    × (c.alive ≤ c.total)
    × (c.circuits_closed ≤ c.total)
half_down_summary = get_pool_summary_bounds pool half_down

get_stats_lem_example :
    let (report, s') = get_stats pool half_down in
    DescribesAll half_down (0 ∷ 1 ∷ []) report.backends
    × All IsConsistent report.backends
    × (report.alive_backends ≡ length (keep (λ (i : BackendInfo). i.alive) report.backends))
    × (report.available_backends ≡ length (keep (λ (i : BackendInfo). i.available) report.backends))
    × (report.available_backends ≤ report.alive_backends)
    × (report.total_backends ≡ 2)
    × Eases half_down s'
get_stats_lem_example = get_stats_lem pool half_down

circuit_report_lem_example :
    let ((entries, summary), s') = circuit_report pool half_down in
    (summary.total_backends ≡ 2)
    × (summary.available_backends + summary.circuits_open ≤ summary.total_backends)
    × (summary.circuits_open + summary.circuits_closed ≡ summary.total_backends)
    × All (λ p. In (half_down.heap p).url (keys entries)) (0 ∷ 1 ∷ [])
    × (length entries ≤ 2)
    × Eases half_down s'
circuit_report_lem_example = circuit_report_lem pool half_down

-- With two backends the endpoints answer 200.
reports_of_two :
    Reported system (health_endpoint client system)
    × Reported system (stats_endpoint client system)
    × Reported system (circuit_breaker_status client system)
reports_of_two = endpoints_report system refl

-- The first circuit has been open for longer than its 30 s when the clock is read.
abbrev open_since : Store
open_since = record store {
  heap = λ p. if p == 0 then record (server 0 (pos 5)) { circuit_open = true } else fleet p;
  clock = λ k. 30_000_000_001 + k;
}

abbrev late_system : System
late_system = record system { store = open_since }

closed_by_report : ((health_endpoint client late_system).store.heap 0).circuit_open ≡ false
unfolding whole health_endpoint get_stats describe_all describe get_backends percentage send_json
closed_by_report = refl

-- In an empty pool all three answer 500.
abbrev bare_system : System
bare_system = record system { pool = record pool { backends = [] } }

endpoints_report_example :
    Reported bare_system (health_endpoint client bare_system)
    × Reported bare_system (stats_endpoint client bare_system)
    × Reported bare_system (circuit_breaker_status client bare_system)
endpoints_report_example = endpoints_report bare_system refl

three_times_500 :
    ((health_endpoint client bare_system).response ≡ some 500)
    × ((stats_endpoint client bare_system).response ≡ some 500)
    × ((circuit_breaker_status client bare_system).response ≡ some 500)
three_times_500 =
    let (of_health, of_stats, of_circuits) = endpoints_report bare_system refl in
    (of_health.0, of_stats.0, of_circuits.0)
