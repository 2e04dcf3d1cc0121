-- ===== src/Examples/Starting.antt =====
-- The program from its start, with six backends of which the first refuses connections.
use Prim.Native.String.{String}
use load_balancer_comparison.Base.{
  zero, suc, map, false, ◌==◌, if◌then◌else◌, Bool-cases, inl, inr, ℕ, ◌≤◌, ◌≡◌, refl, Bool, true,
  Option, none, some, List, [], ◌∷◌, All, length, arith,
}
use load_balancer_comparison.Backend.{Addr, ok, err, Result, new_backend}
use load_balancer_comparison.Balancer.{
  Outcome, is_server_error, responded, load_balance, add_server, System, Request, client,
  new_load_balancer,
}
use load_balancer_comparison.Balancer.Writers.{SameConnections}
use load_balancer_comparison.Balancer.Handled.{WellFormed, Answered, load_balance_answers}
use load_balancer_comparison.Pool.{new_server_pool, add_backend}
use load_balancer_comparison.Balancer.Rotation.{count}
use load_balancer_comparison.Balancer.Failover.{is_failed, Delivered}
use load_balancer_comparison.Balancer.Robust.{AllRobust-less}
use load_balancer_comparison.Startup.Turns.{Turning, turns, serve_requests-turns}
use load_balancer_comparison.Startup.Outage.{main_fails_over}
use load_balancer_comparison.Health.{turn, health_check, is_backend_alive}
use load_balancer_comparison.Health.Ends.{IsFair, health_check_marks}
use load_balancer_comparison.Store.{Store}
use load_balancer_comparison.Startup.{
  default_config, default_backends, add_servers, main, serve_requests,
}
use load_balancer_comparison.Startup.Filling.{Parses, Filled, add_servers_lem}
use load_balancer_comparison.Startup.Serving.{IsAnswered, Ready, serve_requests_lem}
use load_balancer_comparison.Startup.Whole.{main_serves}
use load_balancer_comparison.Examples.Fleet.{
  or_else, total_eq, two_backends, store, system, request, refusing,
}
use load_balancer_comparison.Examples.Balancing.{fleet-AllRobust, fleet-Fits, done, returns}

abbrev any_path : String → Bool
any_path path = true

abbrev three_requests : List Request
three_requests =
    record { path = "/"; retry = none }
    ∷ record { path = "/stats"; retry = none }
    ∷ record { path = "/orders"; retry = none }
    ∷ []

All-Parses : All (Parses ok) default_backends
All-Parses = (
  ("http://localhost:3001", refl),
  (
    ("http://localhost:3002", refl),
    (
      ("http://localhost:3003", refl),
      (
        ("http://localhost:3004", refl),
        (("http://localhost:3005", refl), (("http://localhost:3006", refl), tt)),
      ),
    ),
  ),
)

main_serves_example :
    (sys : System) × (statuses : List (Option ℕ)) × (sys' : System) × (main ok refusing store
      ≡ ok sys)
    × Filled ok sys.store.heap sys.pool.backends default_backends
    × (serve_requests any_path 4 three_requests sys ≡ some (statuses, sys'))
    × (length statuses ≡ length three_requests)
    × All (IsAnswered refusing) statuses
main_serves_example =
    main_serves ok refusing store any_path three_requests All-Parses fleet-Fits
      (refl, (refl, (refl, tt)))

abbrev or_system : Result System → System
or_system (ok sys) = sys
or_system (err e) = system

-- The system that `main` starts with.
abbrev started : System
started = or_system (main ok refusing store)

starts : main ok refusing store ≡ ok started
unfolding main add_servers add_server new_backend new_load_balancer new_server_pool add_backend
starts = refl

-- The first of its six backends fails.
one_fails : count (λ p. is_failed (refusing 0 p)) started.pool.backends ≤ 3
unfolding main add_servers add_server new_backend new_load_balancer new_server_pool add_backend
one_fails = omega arith

-- Every probe of the first check is answered, and each of its six goroutines gets eight steps.
abbrev healthy : Addr → String → Outcome
healthy p url = responded 200

abbrev round_of_six : List ℕ → List ℕ
round_of_six turns = 0 ∷ 1 ∷ 2 ∷ 3 ∷ 4 ∷ 5 ∷ turns

abbrev eight_each : List ℕ
eight_each = round_of_six (
    round_of_six
      (round_of_six (round_of_six (round_of_six (round_of_six (round_of_six (round_of_six [])))))))

eight_each-IsFair : IsFair 6 (map turn eight_each)
eight_each-IsFair zero h = omega arith
eight_each-IsFair (suc zero) h = omega arith
eight_each-IsFair (suc (suc zero)) h = omega arith
eight_each-IsFair (suc (suc (suc zero))) h = omega arith
eight_each-IsFair (suc (suc (suc (suc zero)))) h = omega arith
eight_each-IsFair (suc (suc (suc (suc (suc zero))))) h = omega arith
eight_each-IsFair (suc (suc (suc (suc (suc (suc j)))))) h = omega arith

abbrev checked : Store
checked = or_else (health_check healthy (map turn eight_each) started.pool started.store) store

check_ends : health_check healthy (map turn eight_each) started.pool started.store ≡ some checked
unfolding main add_servers add_server new_backend new_load_balancer new_server_pool add_backend
check_ends =
    let (s', e, marks) =
      health_check_marks healthy (map turn eight_each) started.pool started.store
        eight_each-IsFair in
    total_eq (health_check healthy (map turn eight_each) started.pool started.store) store s' e

found_alive : (p : Addr) (url : String) → is_backend_alive (healthy p) url ≡ true
unfolding is_backend_alive
found_alive p url = refl

main_fails_over_example :
    Delivered
      (refusing 0)
      started.pool.backends
      (load_balance 4 client request (record started { store = checked }))
main_fails_over_example =
    main_fails_over ok refusing store started healthy eight_each checked (refusing 0) client request
      All-Parses starts found_alive (inr check_ends) refl (λ i p. refl) one_fails

add_servers_lem_example :
    (sys : System) × (add_servers ok
        (new_load_balancer default_config refusing store)
        default_backends
      ≡ ok sys)
    × WellFormed sys
    × Filled ok sys.store.heap sys.pool.backends default_backends
    × (sys.config ≡ default_config)
    × (sys.network ≡ refusing)
add_servers_lem_example =
    add_servers_lem ok default_config refusing store default_backends All-Parses

system-WellFormed : WellFormed system
system-WellFormed = record {
  allocated = omega arith;
  distinct = ((omega arith, tt), (tt, tt));
  handled = (refl, (refl, tt));
}

load_balance_answers_example : Answered system done
load_balance_answers_example =
    load_balance_answers 4 client request system done system-WellFormed refl returns

serve_requests_lem_example :
    (statuses : List (Option ℕ)) × (sys' : System) × (serve_requests any_path 4 three_requests
        system
      ≡ some (statuses, sys'))
    × (length statuses ≡ length three_requests)
    × All (IsAnswered refusing) statuses
    × Ready 4 sys'
    × SameConnections store sys'.store
serve_requests_lem_example =
    serve_requests_lem any_path 4 three_requests system
      (record {
        well_formed = system-WellFormed;
        fits = fleet-Fits;
        few = omega arith;
        enough = omega arith;
      })
      (refl, (refl, (refl, tt)))

-- The backends answer with different statuses.
abbrev own_status : Addr → ℕ
own_status p = if p == 0 then 200 else 201

abbrev answering_system : System
answering_system = record system { network = λ k p. responded (own_status p) }

abbrev two_requests : List Request
two_requests = request ∷ record { path = "/orders"; retry = none } ∷ []

own_status_fine : (p : Addr) → is_server_error (own_status p) ≡ false
own_status_fine p = elim (Bool-cases (p == 0)) [ inl e ↦ rw e refl | inr e ↦ rw e refl ]

serve_requests-turns_example :
    (sys' : System) × (serve_requests any_path 4 two_requests answering_system
      ≡ some (turns own_status two_backends 0 2, sys'))
    × Turning own_status 2 sys'
serve_requests-turns_example =
    serve_requests-turns any_path 3 two_requests own_status 0 answering_system
      ((refl, refl, refl, refl), ((refl, refl, refl, refl), tt)) (omega arith)
      (record {
        turn = refl;
        robust = AllRobust-less 3 0 store two_backends (omega arith) fleet-AllRobust;
        live = omega arith;
        network = λ i p. refl;
        fine = own_status_fine;
      })

-- Two requests reach the two backends.
both_serve : turns own_status two_backends 0 2 ≡ some 200 ∷ some 201 ∷ []
both_serve = refl
