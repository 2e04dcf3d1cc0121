-- ===== src/Startup/Outage.antt =====
-- main.go: the program as it starts, while some of its backends do not answer.
use mathlib.Core.Path.{subst}
use Prim.Native.String.{String}
use load_balancer_comparison.Base.{
  true, suc, ℕ, ◌≤◌, ◌≡◌, refl, sym, ap, ◌∙◌, none, List, [], ◌∷◌, All, length, arith,
}
use load_balancer_comparison.Base.Int.{ℤ, pos}
use load_balancer_comparison.Backend.{Addr, Backend, Result, ok}
use load_balancer_comparison.Store.{Store}
use load_balancer_comparison.Algorithms.{round_robin, create_algorithm}
use load_balancer_comparison.Balancer.{
  System, Request, Writer, Outcome, load_balance, get_retry_from_context,
}
use load_balancer_comparison.Balancer.Rotation.{count}
use load_balancer_comparison.Balancer.Robust.{Robust}
use load_balancer_comparison.Balancer.Failover.{failover, is_failed, Delivered}
use load_balancer_comparison.Health.{is_backend_alive}
use load_balancer_comparison.Startup.Checked.{Checks, Checks-AllRobust}
use load_balancer_comparison.Startup.{BackendConfig, default_config, default_backends, main}
use load_balancer_comparison.Startup.Added.{added_backend}
use load_balancer_comparison.Startup.Filling.{Parses, Filled, add_servers_lem, add_servers_start}

added_backend-Robust :
    (p : Addr) (url : String) (weight : ℤ) → Robust 3 p (added_backend p url weight)
added_backend-Robust p url weight = record {
  up = refl;
  closed = refl;
  own = refl;
  counted = omega arith;
  room = omega arith;
  fits = omega arith;
}

Filled-Robust :
    (parse : String → Result String) (heap : Addr → Backend) (ps : List Addr)
    (cs : List BackendConfig)
    → Filled parse heap ps cs
    → All (λ p. Robust 3 p (heap p)) ps
Filled-Robust parse heap [] cs f = tt
Filled-Robust parse heap (p ∷ ps) [] f = elim f [ ]
Filled-Robust parse heap (p ∷ ps) (c ∷ cs) f = (
  subst (Robust 3 p) (sym f.0.2) (added_backend-Robust p f.0.0 c.weight),
  Filled-Robust parse heap ps cs f.1,
)

Filled-length :
    (parse : String → Result String) (heap : Addr → Backend) (ps : List Addr)
    (cs : List BackendConfig)
    → Filled parse heap ps cs
    → length ps ≡ length cs
Filled-length parse heap [] [] f = refl
Filled-length parse heap [] (c ∷ cs) f = elim f [ ]
Filled-length parse heap (p ∷ ps) [] f = elim f [ ]
Filled-length parse heap (p ∷ ps) (c ∷ cs) f = ap (λ n. suc n) (Filled-length parse heap ps cs f.1)

first_turn : create_algorithm "round-robin" ≡ round_robin 0
unfolding create_algorithm
first_turn = refl

no_retry : (r : Request) → r.retry ≡ none → get_retry_from_context r ≡ pos 0
unfolding get_retry_from_context
no_retry r e = rw e refl

-- The program as `main` configures it answers its first request while at most three of its six
-- backends fail, at any moment of the health check that `Start` begins with, or right after it. The
-- addresses can be parsed, every probe of that check finds its backend alive, what each backend answers
-- to requests does not change during the request, and the request carries no count of retries. A
-- member of the pool then answers it.
pub main_fails_over :
    (parse : String → Result String) (network : ℕ → Addr → Outcome) (s : Store) (sys : System)
    (probes : Addr → String → Outcome) (turns : List ℕ) (s' : Store) (steady : Addr → Outcome)
    (w : Writer) (r : Request)
    → All (Parses parse) default_backends
    → main parse network s ≡ ok sys
    → ((p : Addr) (url : String) → is_backend_alive (probes p) url ≡ true)
    → Checks probes turns sys.pool sys.store s'
    → r.retry ≡ none
    → ((i : ℕ) (p : Addr) → network i p ≡ steady p)
    → count (λ p. is_failed (steady p)) sys.pool.backends ≤ 3
    → Delivered steady sys.pool.backends (load_balance 4 w r (record sys { store = s' }))
unfolding main
main_fails_over parse network s sys probes turns s' steady w r good start alive checks first same
      few =
    let (turn, unanswered) =
      add_servers_start parse default_config network s default_backends good sys start in
    let (sys', returns, v, filled', config', network') =
      add_servers_lem parse default_config network s default_backends good in
    let same_system : sys' ≡ sys = cc (returns, start) in
    let filled : Filled parse sys.store.heap sys.pool.backends default_backends =
      subst (λ (x : System). Filled parse x.store.heap x.pool.backends default_backends) same_system
        filled' in
    let limit : sys.config.max_retries ≡ pos 3 =
      ap (λ (x : System). x.config.max_retries) (sym same_system)
      ∙ ap (λ c. c.max_retries) config' in
    let six : length sys.pool.backends ≡ 6 = Filled-length parse sys.store.heap _ _ filled in
    failover steady 4 3 0 w r (record sys { store = s' }) (no_retry r first) limit (omega arith)
      (turn ∙ first_turn) (omega arith)
      (Checks-AllRobust probes alive 3 sys.pool.backends turns sys.pool sys.store s' checks
        (Filled-Robust parse sys.store.heap _ _ filled))
      (λ i p.
        ap (λ (x : System). x.network i p) (sym same_system) ∙ ap (λ n. n i p) network' ∙ same i p)
      few (omega (arith, few, six)) unanswered (omega arith)
