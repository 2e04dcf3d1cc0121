-- ===== src/Startup.antt =====
-- Go-LoadBalancer/main.go and `Start` of loadbalancer.go: how the load balancer is filled and which
-- handler serves a path.
pub mod Added
pub mod Filling
pub mod Serving
pub mod Whole
pub mod Checked
pub mod Outage
pub mod Turns
use Prim.Native.String.{String, ◌++◌ as ◌^^◌}
use text.Mathlib.Text.{◌==◌ as str_eq}
use load_balancer_comparison.Base.{ℕ, Bool, not, Option, none, some, List, [], ◌∷◌, if◌then◌else◌}
use load_balancer_comparison.Base.Int.{ℤ, pos}
use load_balancer_comparison.Backend.{Addr, Result, ok, err}
use load_balancer_comparison.Store.{Store}
use load_balancer_comparison.Balancer.{
  Config, System, Request, client, Handler, Outcome, write_header, load_balance, new_load_balancer,
  add_server,
}
use load_balancer_comparison.Stats.{health_endpoint, stats_endpoint, circuit_breaker_status}

pub record BackendConfig : Type 0 where
  pub url : String
  pub weight : ℤ

abbrev pub default_config : Config
default_config = record {
  port = "3030";
  health_check_interval = pos 30;
  max_retries = pos 3;
  algorithm = "round-robin";
}

abbrev pub default_backends : List BackendConfig
default_backends =
    record { url = "http://localhost:3001"; weight = pos 1 }
    ∷ record { url = "http://localhost:3002"; weight = pos 2 }
    ∷ record { url = "http://localhost:3003"; weight = pos 3 }
    ∷ record { url = "http://localhost:3004"; weight = pos 4 }
    ∷ record { url = "http://localhost:3005"; weight = pos 5 }
    ∷ record { url = "http://localhost:3006"; weight = pos 6 }
    ∷ []

-- The loop of `main`. The first failure ends the program with a message, `err`.
unfoldable pub add_servers : (String → Result String) → System → List BackendConfig → Result System
add_servers parse sys [] = ok sys
add_servers parse sys (c ∷ cs) = elim (add_server parse sys c.url c.weight) [
  | err e ↦ err ("Failed to add backend " ^^ c.url ^^ ": " ^^ e)
  | ok sys' ↦ add_servers parse sys' cs
]

-- `main` up to the call of `Start`.
unfoldable pub main : (String → Result String) → (ℕ → Addr → Outcome) → Store → Result System
unfolding add_servers new_load_balancer
main parse network s =
    add_servers parse (new_load_balancer default_config network s) default_backends

-- The routes of `Start`. `ServeMux` redirects a path that `is_clean` refuses.
unfoldable pub serve_path : (String → Bool) → ℕ → Handler
serve_path is_clean fuel w r sys =
    if not (is_clean r.path)
    then some (write_header w 301 sys)
    else if str_eq r.path "/health"
    then some (health_endpoint w sys)
    else if str_eq r.path "/stats"
    then some (stats_endpoint w sys)
    else if str_eq r.path "/circuit-breakers"
    then some (circuit_breaker_status w sys)
    else load_balance fuel w r sys

-- Requests one after another, with the statuses that the clients are sent.
unfoldable pub serve_requests :
    (String → Bool) → ℕ → List Request → System → Option (List (Option ℕ) × System)
unfolding serve_path
serve_requests is_clean fuel [] sys = some ([], sys)
serve_requests is_clean fuel (r ∷ rs) sys =
    elim (serve_path is_clean fuel client r (record sys { response = none })) [
      | none ↦ none
      | some sys' ↦ elim (serve_requests is_clean fuel rs sys') [
        | none ↦ none
        | some (statuses, sys'') ↦ some (sys'.response ∷ statuses, sys'')
      ]
    ]
