-- ===== src/Health/Rounds.antt =====
-- loadbalancer.go: the marks after any number of health checks are those of the last one.
use mathlib.Core.Path.{subst}
use Prim.Native.String.{String}
use load_balancer_comparison.Base.{
  inl, inr, Bool-cases, ◌*◌, ◌^◌, ◌≡◌, refl, ap, ◌∙◌, ◌<◌, ℕ, List, [], ◌∷◌, ◌++◌, All, Option,
  some, none, map, length, arith, false,
}
use load_balancer_comparison.Base.{All-mono}
use load_balancer_comparison.Base.Int.{pos, leb_ℤ, wrap64_of_InInt64}
use load_balancer_comparison.Backend.{Addr, second}
use load_balancer_comparison.Store.{Store}
use load_balancer_comparison.Pool.{ServerPool, get_backends, get_pool_summary}
use load_balancer_comparison.Pool.Survey.{get_pool_summary-Eases}
use load_balancer_comparison.Balancer.{Outcome}
use load_balancer_comparison.Health.{
  Check, Event, health_check, health_checks, health_checking, all_done, Task, in_seconds, run_tasks,
  start_task, is_backend_alive,
}
use load_balancer_comparison.Health.Marks.{run_tasks-Went, start-Sound, Eases-url}
use load_balancer_comparison.Health.Ends.{IsFair, health_check_marks}

-- Every goroutine of the check gets its steps.
abbrev pub IsFairCheck : ServerPool → Check → Type 0
IsFairCheck pool (events, network) = IsFair (length pool.backends) events

-- A check that ends keeps the addresses.
health_check-url :
    (network : Addr → String → Outcome) (events : List Event) (pool : ServerPool) (s s' : Store)
    → health_check network events pool s ≡ some s'
    → (p : Addr) → (s'.heap p).url ≡ (s.heap p).url
unfolding health_check get_backends
health_check-url network events pool s s' e p =
    let ts : List Task = (run_tasks network events (map start_task pool.backends) s).0 in
    let s1 : Store = (run_tasks network events (map start_task pool.backends) s).1 in
    let s2 : Store = (get_pool_summary pool s1).1 in
    let known =
      (run_tasks-Went network (λ q. (s.heap q).url) events (map start_task pool.backends) s
        (λ q. refl) (start-Sound network (λ q. (s.heap q).url) pool.backends s)).0 in
    elim (Bool-cases (all_done ts)) [
      | inl done ↦
          let returns : health_check network events pool s ≡ some s2 = rw done refl in
          let same_store : s2 ≡ s' = cc (returns, e) in
          subst (λ (t : Store). (t.heap p).url ≡ (s.heap p).url) same_store
            (Eases-url s1 s2 p (get_pool_summary-Eases pool s1) ∙ known p)
      | inr waiting ↦
          let stuck : health_check network events pool s ≡ none = rw waiting refl in
          absurd (cc (stuck, e))
    ]

ticker_starts :
    (interval : ℕ)
    → 0 < interval
    → interval * second < 2 ^ 63
    → leb_ℤ (in_seconds (pos interval)) (pos 0) ≡ false
ticker_starts interval some_time fits =
    rw (wrap64_of_InInt64 (pos (interval * second)) (omega arith, omega arith)) (ground arith)

-- The store after some checks whose last one has `network` answer its probes.
abbrev pub Leaves : (Addr → String → Outcome) → ServerPool → Store → Option Store → Type 0
Leaves network pool s o =
    (s' : Store) × (o ≡ some s')
    × All (λ p. (s'.heap p).alive ≡ is_backend_alive (network p) (s.heap p).url) pool.backends

health_checks_leave :
    (checks : List Check) (events : List Event) (network : Addr → String → Outcome)
    (pool : ServerPool) (s : Store)
    → All (IsFairCheck pool) checks
    → IsFair (length pool.backends) events
    → Leaves network pool s (health_checks (checks ++ (events, network) ∷ []) pool s)
unfolding health_checks
health_checks_leave [] events network pool s fair last =
    let (s', returns, marks) = health_check_marks network events pool s last in
    (s', rw (health_checks, returns) refl, marks)
health_checks_leave ((es, net) ∷ checks) events network pool s fair last =
    let (s1, returns, marks) = health_check_marks net es pool s fair.0 in
    let (s', returns', marks') = health_checks_leave checks events network pool s1 fair.1 last in
    (
      s',
      rw (health_checks, returns) returns',
      All-mono _ _ pool.backends
          (λ p e.
            e ∙ ap (is_backend_alive (network p)) (health_check-url net es pool s s1 returns p))
          marks',
    )

-- With an interval of at least a second that fits a duration, the loop of health checks goes on
-- through every tick whose goroutines get their steps, and after a tick every backend of the pool is
-- marked as its probe in that tick found it, whatever the checks and the requests before did.
pub health_checking_marks :
    (interval : ℕ) (first : Check) (ticks : List Check) (events : List Event)
    (network : Addr → String → Outcome) (pool : ServerPool) (s : Store)
    → 0 < interval
    → interval * second < 2 ^ 63
    → All (IsFairCheck pool) (first ∷ ticks)
    → IsFair (length pool.backends) events
    → Leaves network pool s
        (health_checking (pos interval) first (ticks ++ (events, network) ∷ []) pool s)
unfolding health_checking
health_checking_marks interval first ticks events network pool s some_time fits fair last =
    let goes_on : leb_ℤ (in_seconds (pos interval)) (pos 0) ≡ false =
      ticker_starts interval some_time fits in
    rw goes_on (health_checks_leave (first ∷ ticks) events network pool s fair last)
