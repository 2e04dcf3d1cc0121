-- ===== src/Stats.antt =====
-- Go-LoadBalancer/serverpool.go and loadbalancer.go: the reports about the pool, `GetStats` and the
-- endpoints /health, /stats and /circuit-breakers. Values that are copied from the configuration and
-- the clock are left out of the JSON objects.
pub mod Counts
pub mod Report
pub mod Circuits
pub mod Replies
use Prim.Native.String.{String, ◌++◌ as ◌^^◌}
use text.Mathlib.Text.{◌==◌ as str_eq}
use load_balancer_comparison.Base.{
  ℕ, zero, suc, ◌==◌, ◌-◌, Bool, true, false, Option, none, some, List, [], ◌∷◌, length,
  if◌then◌else◌,
}
use load_balancer_comparison.Base.Int.{ℤ}
use load_balancer_comparison.Backend.{
  Addr, Backend, is_alive, get_connections, get_consecutive_errors,
}
use load_balancer_comparison.Store.{Store, look, is_available}
use load_balancer_comparison.Algorithms.{name}
use load_balancer_comparison.Pool.{ServerPool, get_backends}
use load_balancer_comparison.Balancer.{System, Writer, http_error, write_header}

-- `float64(part) / float64(whole) * 100`, before it is rounded: a ratio, or `none` for the NaN that 0/0
-- is.
pub record Ratio : Type 0 where
  pub part : ℕ
  pub whole_count : ℕ

unfoldable pub percentage : ℕ → ℕ → Option Ratio
percentage part total =
    if total == 0 then none else some (record { part = part; whole_count = total })

-- The object of one backend in `GetStats`.
pub record BackendInfo : Type 0 where
  pub url : String
  pub status : String
  pub connections : ℤ
  pub weight : ℤ
  pub consecutive_errors : ℤ
  pub circuit_open : Bool
  pub available : Bool
  pub alive : Bool
  pub health_status : String
  pub circuit_status : String

pub record Stats : Type 0 where
  pub algorithm : String
  pub total_backends : ℕ
  pub alive_backends : ℕ
  pub available_backends : ℕ
  pub backends : List BackendInfo
  pub pool_health_percentage : Option Ratio

-- The body of the loop: the circuit is looked at for `available`, for the status, and twice for the
-- object.
unfoldable pub describe : Addr → Store → BackendInfo × Store
describe p s =
    let alive = is_alive (s.heap p) in
    let (available, s1) = is_available p s in
    let (open1, s2) = look p s1 in
    let (open2, s3) = look p s2 in
    let (open3, s4) = look p s3 in
    let up_or_down : String = if alive then "up" else "down" in
    (
      record {
        url = (s2.heap p).url;
        status = if open1 then up_or_down ^^ " (circuit open)" else up_or_down;
        connections = get_connections (s2.heap p);
        weight = (s2.heap p).weight;
        consecutive_errors = get_consecutive_errors (s2.heap p);
        circuit_open = open2;
        available = available;
        alive = alive;
        health_status = if alive then "healthy" else "unhealthy";
        circuit_status = if open3 then "open" else "closed";
      },
      s4,
    )

abbrev pub one_if : Bool → ℕ → ℕ
one_if b n = if b then suc n else n

-- The loop of `GetStats`, with its counts of live and of available backends.
unfoldable pub describe_all : List Addr → Store → (ℕ × ℕ × List BackendInfo) × Store
unfolding describe
describe_all [] s = ((0, 0, []), s)
describe_all (p ∷ ps) s =
    let (info, s1) = describe p s in
    let ((alive_count, available_count, infos), s2) = describe_all ps s1 in
    ((one_if info.alive alive_count, one_if info.available available_count, info ∷ infos), s2)

unfoldable pub get_stats : ServerPool → Store → Stats × Store
unfolding describe_all percentage
get_stats pool s =
    let ((alive_count, available_count, infos), s') = describe_all (get_backends pool) s in
    (
      record {
        algorithm = name pool.algorithm;
        total_backends = length (get_backends pool);
        alive_backends = alive_count;
        available_backends = available_count;
        backends = infos;
        pool_health_percentage = percentage available_count (length (get_backends pool));
      },
      s',
    )

-- One entry of /circuit-breakers.
pub record CircuitInfo : Type 0 where
  pub url : String
  pub consecutive_errors : ℤ
  pub circuit_open : Bool
  pub available : Bool
  pub alive : Bool
  pub connections : ℤ
  pub weight : ℤ

pub record CircuitSummary : Type 0 where
  pub total_backends : ℕ
  pub available_backends : ℕ
  pub circuits_open : ℕ
  pub circuits_closed : ℕ
  pub health_percentage : Option Ratio

-- The body of the loop of `circuitBreakerStatus`.
unfoldable pub describe_circuit : Addr → Store → CircuitInfo × Store
describe_circuit p s =
    let (available, s1) = is_available p s in
    let (open_now, s2) = look p s1 in
    (
      record {
        url = (s2.heap p).url;
        consecutive_errors = get_consecutive_errors (s2.heap p);
        circuit_open = open_now;
        available = available;
        alive = is_alive (s2.heap p);
        connections = get_connections (s2.heap p);
        weight = (s2.heap p).weight;
      },
      s2,
    )

-- A JSON object: the last value that was put at a key.
abbrev pub CircuitMap : Type 0
CircuitMap = List (String × CircuitInfo)

abbrev pub put_entry : String → CircuitInfo → CircuitMap → CircuitMap
put_entry key info [] = (key, info) ∷ []
put_entry key info ((k, v) ∷ entries) =
    let rest = put_entry key info entries in
    if str_eq key k then (k, info) ∷ entries else (k, v) ∷ rest

-- What the loop has counted and collected.
pub record Census : Type 0 where
  pub entries : CircuitMap
  pub available_count : ℕ
  pub open_count : ℕ

unfoldable pub census_step : CircuitInfo → Census → Census
census_step info c = record {
  entries = put_entry info.url info c.entries;
  available_count = one_if info.available c.available_count;
  open_count = one_if info.circuit_open c.open_count;
}

unfoldable pub take_census : List Addr → Census → Store → Census × Store
unfolding describe_circuit census_step
take_census [] c s = (c, s)
take_census (p ∷ ps) c s =
    let (info, s') = describe_circuit p s in take_census ps (census_step info c) s'

abbrev pub no_census : Census
no_census = record { entries = []; available_count = 0; open_count = 0 }

unfoldable pub circuit_report : ServerPool → Store → (CircuitMap × CircuitSummary) × Store
unfolding take_census percentage
circuit_report pool s =
    let (c, s') = take_census (get_backends pool) no_census s in
    let total = length (get_backends pool) in
    (
      (
        c.entries,
        record {
          total_backends = total;
          available_backends = c.available_count;
          circuits_open = c.open_count;
          circuits_closed = total - c.open_count;
          health_percentage = percentage c.available_count total;
        },
      ),
      s',
    )

-- `json.NewEncoder(w).Encode` fails on a NaN before it writes anything; else its first write sends 200.
unfoldable pub send_json : Option Ratio → Writer → System → System
unfolding http_error write_header
send_json none w sys = http_error w 500 sys
send_json (some r) w sys = write_header w 200 sys

unfoldable pub health_endpoint : Writer → System → System
unfolding get_stats send_json
health_endpoint w sys =
    let (report, s') = get_stats sys.pool sys.store in
    send_json report.pool_health_percentage w (record sys { store = s' })

-- The object of `stats` holds that of `GetStats` and values that encode always.
unfoldable pub stats_endpoint : Writer → System → System
unfolding get_stats send_json
stats_endpoint w sys =
    let (report, s') = get_stats sys.pool sys.store in
    send_json report.pool_health_percentage w (record sys { store = s' })

unfoldable pub circuit_breaker_status : Writer → System → System
unfolding circuit_report send_json
circuit_breaker_status w sys =
    let ((entries, report), s') = circuit_report sys.pool sys.store in
    send_json report.health_percentage w (record sys { store = s' })
