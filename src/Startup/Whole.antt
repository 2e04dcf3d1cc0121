-- ===== src/Startup/Whole.antt =====
-- main.go: the whole program, from its start through any number of requests.
use mathlib.Core.Path.{subst}
use Prim.Native.String.{String}
use load_balancer_comparison.Base.{ℕ, ◌≡◌, Bool, Option, none, some, List, All, length, arith}
use load_balancer_comparison.Backend.{Addr, Result, ok}
use load_balancer_comparison.Store.{Store}
use load_balancer_comparison.Balancer.{System, Request, Outcome}
use load_balancer_comparison.Balancer.Connections.{Fits}
use load_balancer_comparison.Startup.{default_config, default_backends, main, serve_requests}
use load_balancer_comparison.Startup.Filling.{Parses, Filled, add_servers_lem, add_servers-Fits}
use load_balancer_comparison.Startup.Serving.{IsAnswered, Ready, serve_requests_lem}

-- When the six addresses of `main` can be parsed, the load balancer starts, and any number of requests
-- that are then sent to it one after another are all answered, whatever the backends do: each client
-- is sent a status that a backend has answered, or 200, 301, 500 or 503. The requests carry no count
-- of retries yet.
pub main_serves :
    (parse : String → Result String) (network : ℕ → Addr → Outcome) (s : Store)
    (is_clean : String → Bool) (rs : List Request)
    → All (Parses parse) default_backends
    → Fits s
    → All (λ (r : Request). r.retry ≡ none) rs
    → (sys : System) × (statuses : List (Option ℕ)) × (sys' : System) × (main parse network s
        ≡ ok sys)
      × Filled parse sys.store.heap sys.pool.backends default_backends
      × (serve_requests is_clean 4 rs sys ≡ some (statuses, sys'))
      × (length statuses ≡ length rs)
      × All (IsAnswered network) statuses
unfolding main
main_serves parse network s is_clean rs good fits first =
    let (sys, returns, v, filled, config_same, network_same) =
      add_servers_lem parse default_config network s default_backends good in
    let ready : Ready 4 sys = record {
      well_formed = v;
      fits = add_servers-Fits parse default_config network s default_backends good sys returns fits;
      few = rw config_same (omega arith);
      enough = rw config_same (omega arith);
    } in
    let (statuses, sys', served, same_length, answered, ready', same) =
      serve_requests_lem is_clean 4 rs sys ready first in
    (
      sys,
      statuses,
      sys',
      returns,
      filled,
      served,
      same_length,
      subst (λ n. All (IsAnswered n) statuses) network_same answered,
    )
