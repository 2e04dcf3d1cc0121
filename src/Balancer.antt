-- ===== src/Balancer.antt =====
-- Go-LoadBalancer/loadbalancer.go and config.go: the handler that forwards a request, with the
-- recorder of statuses, the error handler and its retries. What the network answers to the requests
-- that are forwarded is arbitrary; the log lines are left out, but not what they look at.
pub mod Cases
pub mod Writers
pub mod Fixed
pub mod Frame
pub mod Handled
pub mod Progress
pub mod Rotation
pub mod Robust
pub mod Attempts
pub mod Failover
pub mod Exhausted
pub mod Connections
pub mod Reply
pub mod Failures
use Prim.Native.String.{String, ◌++◌ as ◌^^◌}
use load_balancer_comparison.Base.{
  ℕ, zero, suc, ◌==◌, ltb, leb, Bool, true, false, ◌&&◌, Option, none, some, List, [], ◌∷◌,
  if◌then◌else◌,
}
use load_balancer_comparison.Base.Int.{ℤ, pos, add64, ltb_ℤ}
use load_balancer_comparison.Backend.{
  Addr, Backend, Result, ok, err, new_backend, record_success, add_connection, remove_connection,
}
use load_balancer_comparison.Store.{Store, modify, fail, look, update}
use load_balancer_comparison.Algorithms.{create_algorithm}
use load_balancer_comparison.Pool.{
  ServerPool, new_server_pool, add_backend, next_available_peer, get_available_backends,
  get_pool_summary,
}

pub record Config : Type 0 where
  pub port : String
  pub health_check_interval : ℤ
  pub max_retries : ℤ
  pub algorithm : String

-- What the transport of a reverse proxy answers: a final status, or an error's text.
pub data Outcome : Type 0 where
  responded : ℕ → Outcome
  failed : String → Outcome

-- The load balancer while it handles one request. `network k p` is the answer when the `k`th request
-- that is forwarded goes to `p`; `sent` of them have been. `response` is the status that the client
-- has been sent.
pub record System : Type 0 where
  pub config : Config
  pub pool : ServerPool
  pub store : Store
  pub network : ℕ → Addr → Outcome
  pub sent : ℕ
  pub response : Option ℕ

-- The parts of a request that the handlers use: its text, and the value of `retryKey`.
pub record Request : Type 0 where
  pub path : String
  pub retry : Option ℤ

unfoldable pub get_retry_from_context : Request → ℤ
get_retry_from_context r = elim r.retry [ none ↦ pos 0 | some n ↦ n ]

-- A response writer: the connection to the client, or a `ResponseRecorder` round another writer.
pub data Writer : Type 0 where
  client : Writer
  recorder : Addr → Writer → Writer

abbrev pub is_server_error : ℕ → Bool
is_server_error code = leb 500 code && ltb code 600

abbrev pub is_success : ℕ → Bool
is_success code = leb 200 code && ltb code 400

-- What a recorder does to its backend; after an error it looks at the circuit.
unfoldable pub record_status : Addr → ℕ → Store → Store
record_status p code s =
    if is_server_error code
    then (look p (fail p s)).1
    else if is_success code
    then modify record_success p s
    else s

abbrev pub first_status : Option ℕ → ℕ → Option ℕ
first_status none code = some code
first_status (some first) code = some first

-- `WriteHeader`. The client is sent the first status only; `net/http` ignores a later one.
unfoldable pub write_header : Writer → ℕ → System → System
write_header client code sys = record sys { response = first_status sys.response code }
write_header (recorder p w) code sys =
    write_header w code (record sys { store = record_status p code sys.store })

abbrev pub service_unavailable : ℕ
service_unavailable = 503

-- `http.Error`, whose body is left out.
unfoldable pub http_error : Writer → ℕ → System → System
unfolding write_header
http_error w code sys = write_header w code sys

-- A handler may run out of fuel: `none`.
abbrev pub Handler : Type 0
Handler = Writer → Request → System → Option System

-- The closure that `createErrorHandler` makes for a backend; `again` is `lb.loadBalance`.
unfoldable pub error_handler : Handler → Addr → Handler
error_handler again p w r sys =
    let retries = get_retry_from_context r in
    let s1 = (look p (fail p sys.store)).1 in
    let s2 = (get_available_backends sys.pool s1).1 in
    if ltb_ℤ retries sys.config.max_retries
    then again w (record r { retry = some (add64 retries (pos 1)) }) (record sys { store = s2 })
    else some (http_error w service_unavailable (record sys { store = s1 }))

-- What the proxy does with an answer. Its default error handler writes 502.
unfoldable pub answer : Handler → Outcome → Option Addr → Handler
answer again (responded code) handler w r sys = some (write_header w code sys)
answer again (failed e) none w r sys = some (write_header w 502 sys)
answer again (failed e) (some p) w r sys = error_handler again p w r sys

-- `ServeHTTP` of the backend's reverse proxy.
unfoldable pub serve_http : Handler → Addr → Handler
serve_http again p w r sys =
    answer again (sys.network sys.sent p) (sys.store.heap p).error_handler w r
      (record sys { sent = suc sys.sent })

abbrev pub disconnect : Addr → System → System
disconnect p sys = record sys { store = modify remove_connection p sys.store }

-- The part of `loadBalance` after the choice of a peer, with the deferred `RemoveConnection`.
unfoldable pub forward : Handler → Option Addr → Handler
forward again none w r sys = some (
    http_error w service_unavailable
      (record sys { store = (get_pool_summary sys.pool sys.store).1 }))
forward again (some p) w r sys =
    let s1 = (look p (modify add_connection p sys.store)).1 in
    elim (serve_http again p (recorder p w) r (record sys { store = s1 })) [
      | none ↦ none
      | some sys' ↦ some (disconnect p sys')
    ]

unfoldable pub load_balance : ℕ → Handler
load_balance zero w r sys = none
load_balance (suc fuel) w r sys =
    let (peer, pool', s') = next_available_peer sys.pool sys.store in
    forward (load_balance fuel) peer w r (record sys { pool = pool'; store = s' })

unfoldable pub new_load_balancer : Config → (ℕ → Addr → Outcome) → Store → System
unfolding new_server_pool
new_load_balancer config network s = record {
  config = config;
  pool = new_server_pool (create_algorithm config.algorithm);
  store = s;
  network = network;
  sent = 0;
  response = none;
}

-- The backend is allocated, its proxy gets the error handler, and it joins the pool.
unfoldable pub add_server : (String → Result String) → System → String → ℤ → Result System
add_server parse sys server_url weight = elim (new_backend parse server_url weight) [
  | err e ↦ err ("failed to create backend " ^^ server_url ^^ ": " ^^ e)
  | ok b ↦
      let p : Addr = sys.store.fresh in
      ok (record sys {
        store = record sys.store {
          heap = update sys.store.heap p (record b { error_handler = some p });
          fresh = suc p;
        };
        pool = add_backend sys.pool p;
      })
]
