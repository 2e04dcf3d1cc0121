-- ===== src/Startup/Serving.antt =====
-- loadbalancer.go: requests to a running load balancer, one after another.
use mathlib.Core.Path.{subst}
use Prim.Native.String.{String}
use text.Mathlib.Text.{◌==◌ as str_eq}
use load_balancer_comparison.Base.{
  ℕ, suc, ◌==◌, ◌≡◌, refl, ap, ◌∙◌, Bool, true, false, Option, none, some, List, [], ◌∷◌, All, ◌<◌,
  ◌^◌, ◌-◌, ◌⊎◌, inl, inr, arith, length, Bool-cases, if◌then◌else◌,
}
use load_balancer_comparison.Base.Int.{pos, ◌≤ℤ◌, pos_part}
use load_balancer_comparison.Backend.{Addr}
use load_balancer_comparison.Pool.{ServerPool}
use load_balancer_comparison.Balancer.{
  System, Request, client, Outcome, responded, load_balance, write_header, http_error,
  get_retry_from_context, first_status,
}
use load_balancer_comparison.Balancer.Writers.{
  SameConnections, Eases-connections, write_header-connections, write_header_frame,
}
use load_balancer_comparison.Balancer.Connections.{
  Fits, Fits-same, same_trans, load_balance-connections,
}
use load_balancer_comparison.Balancer.Progress.{load_balance_ends}
use load_balancer_comparison.Balancer.Fixed.{Eases-SameFixed}
use load_balancer_comparison.Balancer.Frame.{Frame, write_header-Frame, load_balance-Frame}
use load_balancer_comparison.Balancer.Handled.{WellFormed, Frame-WellFormed, load_balance_answers}
use load_balancer_comparison.Stats.{
  Ratio, send_json, health_endpoint, stats_endpoint, circuit_breaker_status, get_stats,
  circuit_report,
}
use load_balancer_comparison.Stats.Replies.{Reported, endpoints_report}
use load_balancer_comparison.Startup.{serve_path, serve_requests}

-- The statuses that the load balancer itself writes.
abbrev pub OwnStatus : ℕ → Type 0
OwnStatus code = (code ≡ 200) ⊎ (code ≡ 301) ⊎ (code ≡ 500) ⊎ (code ≡ 503)

-- The client was sent a status that a backend has answered, or one of the load balancer's own.
abbrev pub IsAnswered : (ℕ → Addr → Outcome) → Option ℕ → Type 0
IsAnswered network o =
    (code : ℕ) × (o ≡ some code)
    × (((k : ℕ) × (p : Addr) × (network k p ≡ responded code)) ⊎ OwnStatus code)

-- What a request that has been served leaves.
abbrev pub Served : System → System → Type 0
Served sys sys' =
    IsAnswered sys.network sys'.response × Frame sys sys' × SameConnections sys.store sys'.store

-- A report changes the store and the response only.
abbrev OnlyStore : System → System → Type 0
OnlyStore sys sys' =
    (sys'.config ≡ sys.config) × (sys'.pool ≡ sys.pool) × (sys'.network ≡ sys.network)

send_json-OnlyStore : (o : Option Ratio) (sys : System) → OnlyStore sys (send_json o client sys)
unfolding send_json http_error write_header
send_json-OnlyStore none sys = (refl, refl, refl)
send_json-OnlyStore (some r) sys = (refl, refl, refl)

own_status : (b : Bool) → OwnStatus (if b then 500 else 200)
own_status true = inr (inr (inl refl))
own_status false = inl refl

Reported-Served : (sys sys' : System) → Reported sys sys' → OnlyStore sys sys' → Served sys sys'
Reported-Served sys sys' (status, eases, sent) (c, p, n) = (
  (_, status, inr (own_status (length sys.pool.backends == 0))),
  record {
    config_same = c;
    backends_same = ap (λ (x : ServerPool). x.backends) p;
    network_same = n;
    fixed_same = Eases-SameFixed sys.store sys'.store eases;
  },
  Eases-connections sys.store sys'.store eases,
)

endpoints-OnlyStore :
    (sys : System)
    → OnlyStore sys (health_endpoint client sys)
      × OnlyStore sys (stats_endpoint client sys)
      × OnlyStore sys (circuit_breaker_status client sys)
unfolding health_endpoint stats_endpoint circuit_breaker_status
endpoints-OnlyStore sys =
    let (report, s1) = get_stats sys.pool sys.store in
    let ((entries, circuits), s2) = circuit_report sys.pool sys.store in
    (
      send_json-OnlyStore report.pool_health_percentage (record sys { store = s1 }),
      send_json-OnlyStore report.pool_health_percentage (record sys { store = s1 }),
      send_json-OnlyStore circuits.health_percentage (record sys { store = s2 }),
    )

redirect-Served : (sys : System) → sys.response ≡ none → Served sys (write_header client 301 sys)
redirect-Served sys e = (
  (
    301,
    ap (λ (x : System). x.response) (write_header_frame client 301 sys)
        ∙ ap (λ r. first_status r 301) e,
    inr (inr (inl refl)),
  ),
  write_header-Frame client 301 sys,
  write_header-connections client 301 sys,
)

balanced-Served :
    (fuel : ℕ) (r : Request) (sys sys' : System)
    → WellFormed sys
    → Fits sys.store
    → sys.response ≡ none
    → load_balance fuel client r sys ≡ some sys'
    → Served sys sys'
balanced-Served fuel r sys sys' v fits e h =
    let (code, status, origin) = load_balance_answers fuel client r sys sys' v e h in
    (
      (
        code,
        status,
        elim origin [ inl answered ↦ inl answered | inr own ↦ inr (inr (inr (inr own))) ],
      ),
      load_balance-Frame fuel client r sys sys' h,
      load_balance-connections fuel client r sys sys' fits h,
    )

-- A load balancer that can serve requests with this fuel.
pub record Ready (fuel : ℕ) (sys : System) : Type 0 where
  pub well_formed : WellFormed sys
  pub fits : Fits sys.store
  pub few : sys.config.max_retries ≤ℤ pos (2 ^ 63 - 1)
  pub enough : pos_part sys.config.max_retries < fuel

-- A handler's result that is there and has served the request.
abbrev ServedBy : System → Option System → Type 0
ServedBy sys o = (sys' : System) × (o ≡ some sys') × Served sys sys'

serve_path-Served :
    (is_clean : String → Bool) (fuel : ℕ) (r : Request) (sys : System)
    → Ready fuel sys
    → r.retry ≡ none
    → sys.response ≡ none
    → ServedBy sys (serve_path is_clean fuel client r sys)
unfolding serve_path get_retry_from_context
serve_path-Served is_clean fuel r sys ready first e =
    let (health, stats, circuits) = endpoints_report sys e in
    let (health_only, stats_only, circuits_only) = endpoints-OnlyStore sys in
    elim (Bool-cases (is_clean r.path)) [
      | inr unclean ↦ rw unclean (write_header client 301 sys, refl, redirect-Served sys e)
      | inl clean ↦ rw clean (elim (Bool-cases (str_eq r.path "/health")) [
        | inl h ↦ rw h (health_endpoint client sys, refl, Reported-Served sys _ health health_only)
        | inr h ↦ rw h (elim (Bool-cases (str_eq r.path "/stats")) [
          | inl k ↦ rw k (stats_endpoint client sys, refl, Reported-Served sys _ stats stats_only)
          | inr k ↦ rw k (elim (Bool-cases (str_eq r.path "/circuit-breakers")) [
            | inl m ↦ rw m (
              circuit_breaker_status client sys,
              refl,
              Reported-Served sys _ circuits circuits_only,
            )
            | inr m ↦ rw m (
                let (sys', returns, few) =
                  load_balance_ends fuel 0 client r sys (rw first refl) ready.few
                    (omega (arith, ready.enough)) in
                (
                  sys',
                  returns,
                  balanced-Served fuel r sys sys' ready.well_formed ready.fits e returns,
                ))
          ])
        ])
      ])
    ]

-- Between two requests only the response is reset.
again-Ready :
    (fuel : ℕ) (sys : System) → Ready fuel sys → Ready fuel (record sys { response = none })
again-Ready fuel sys ready = record {
  well_formed = record {
    allocated = ready.well_formed.allocated;
    distinct = ready.well_formed.distinct;
    handled = ready.well_formed.handled;
  };
  fits = ready.fits;
  few = ready.few;
  enough = ready.enough;
}

Served-Ready : (fuel : ℕ) (sys sys' : System) → Ready fuel sys → Served sys sys' → Ready fuel sys'
Served-Ready fuel sys sys' ready (answered, frame, same) = record {
  well_formed = Frame-WellFormed sys sys' frame ready.well_formed;
  fits = Fits-same sys.store sys'.store same ready.fits;
  few = rw frame.config_same ready.few;
  enough = rw frame.config_same ready.enough;
}

-- Any number of new requests to a load balancer that is able to serve are all answered, with as many
-- statuses as there were requests, each of them answered by a backend or one of 200, 301, 500 and
-- 503. The load balancer is then still well-formed and able to serve, and no backend has another
-- number of connections than before.
pub serve_requests_lem :
    (is_clean : String → Bool) (fuel : ℕ) (rs : List Request) (sys : System)
    → Ready fuel sys
    → All (λ (r : Request). r.retry ≡ none) rs
    → (statuses : List (Option ℕ)) × (sys' : System) × (serve_requests is_clean fuel rs sys
        ≡ some (statuses, sys'))
      × (length statuses ≡ length rs)
      × All (IsAnswered sys.network) statuses
      × Ready fuel sys'
      × SameConnections sys.store sys'.store
unfolding serve_requests
serve_requests_lem is_clean fuel [] sys ready first = ([], sys, refl, refl, tt, ready, λ q. refl)
serve_requests_lem is_clean fuel (r ∷ rs) sys ready first =
    let fresh : System = record sys { response = none } in
    let ready' : Ready fuel fresh = again-Ready fuel sys ready in
    let (sys1, returns, served) = serve_path-Served is_clean fuel r fresh ready' first.0 refl in
    let (statuses, sys2, returns2, same_length, answered, ready2, same) =
      serve_requests_lem is_clean fuel rs sys1 (Served-Ready fuel fresh sys1 ready' served)
        first.1 in
    (
      sys1.response ∷ statuses,
      sys2,
      rw (serve_requests, returns, returns2) refl,
      ap suc same_length,
      (served.0, subst (λ n. All (IsAnswered n) statuses) served.1.network_same answered),
      ready2,
      same_trans sys.store sys1.store sys2.store served.2 same,
    )
