-- ===== src/Examples/Fleet.antt =====
-- Two backends, a pool and a load balancer for the examples.
use load_balancer_comparison.Base.{
  ◌≡◌, refl, Option, ◌≡◌, Option, ℕ, ◌==◌, true, false, none, some, List, [], ◌∷◌, if◌then◌else◌,
}
use load_balancer_comparison.Base.Int.{ℤ, pos, wrap64, ◌+ℤ◌, ◌-ℤ◌}
use load_balancer_comparison.Backend.{
  Addr, Backend, time_sub, is_alive, is_circuit_open, record_error, record_success, add_connection,
  remove_connection, get_connections, set_alive,
}
use load_balancer_comparison.Store.{Store, modify, fail, look, is_available}
use load_balancer_comparison.Algorithms.{
  Heap, round_robin, next_backend, round_robin_next, get_alive_backends, weighted_next,
  init_weights, effective_weight, scan, scan_one, least_connections_next, least_from, improves,
}
use load_balancer_comparison.Pool.{
  ServerPool, survey, reason, next_available_peer, next_peer, check_choice,
  find_alternative_backend, is_alternative, get_available_backends, available_among,
  get_pool_summary, summarise,
}
use load_balancer_comparison.Balancer.{
  System, Request, Outcome, failed, responded, load_balance, forward, serve_http, answer,
  error_handler, http_error, write_header, record_status, get_retry_from_context,
}

-- A backend that has been added with the given weight.
abbrev pub server : Addr → ℤ → Backend
server p weight = record {
  url = "http://localhost:3001";
  alive = true;
  error_handler = some p;
  weight = weight;
  connections = pos 0;
  consecutive_errors = pos 0;
  last_error_time = 0;
  circuit_open = false;
  max_consecutive_errors = pos 10;
  circuit_timeout = pos 30_000_000_000;
}

-- The first has weight 5, the other 1.
abbrev pub fleet : Heap
fleet p = if p == 0 then server 0 (pos 5) else server p (pos 1)

abbrev pub store : Store
store = record { heap = fleet; fresh = 2; clock = λ k. k; reads = 0 }

abbrev pub two_backends : List Addr
two_backends = 0 ∷ 1 ∷ []

abbrev pub pool : ServerPool
pool = record { backends = two_backends; algorithm = round_robin 0 }

-- The first backend refuses connections, the second answers 200.
abbrev pub refusing : ℕ → Addr → Outcome
refusing k p = if p == 0 then failed "connection refused" else responded 200

abbrev pub system : System
system = record {
  config = record {
    port = "3030";
    health_check_interval = pos 30;
    max_retries = pos 3;
    algorithm = "round-robin";
  };
  pool = pool;
  store = store;
  network = refusing;
  sent = 0;
  response = none;
}

abbrev pub request : Request
request = record { path = "/"; retry = none }

abbrev pub or_else {ℓ} : {A : Type ℓ} → Option A → A → A
or_else none d = d
or_else (some a) d = a

-- A computation that returns, returns its value.
pub total_eq {ℓ} : {A : Type ℓ} (o : Option A) (d : A) (a : A) → o ≡ some a → o ≡ some (or_else o d)
total_eq none d a e = absurd (cc e)
total_eq (some b) d a e = refl

-- To unfold this is to unfold the model.
unfoldable pub whole : ℕ
unfolding time_sub is_alive is_circuit_open record_error record_success add_connection
    remove_connection get_connections set_alive modify fail look is_available next_backend
    round_robin_next get_alive_backends weighted_next init_weights effective_weight scan scan_one
    least_connections_next least_from improves survey reason next_available_peer next_peer
    check_choice find_alternative_backend is_alternative get_available_backends available_among
    get_pool_summary summarise load_balance forward serve_http answer error_handler http_error
    write_header record_status get_retry_from_context wrap64 ◌+ℤ◌ ◌-ℤ◌
whole = 0
