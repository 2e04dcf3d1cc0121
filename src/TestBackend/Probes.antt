-- ===== src/TestBackend/Probes.antt =====
-- TestBackend/handlers.go and Go-LoadBalancer/serverpool.go: the health check of the load balancer asks
-- the health handler of a test backend.
use Prim.Native.String.{String, ◌++◌ as ◌^^◌}
use mathlib.Core.Path.{subst}
use load_balancer_comparison.Base.{
  ◌*◌, true, if◌then◌else◌, ℕ, ◌≡◌, ◌≢◌, ◌∙◌, ap, refl, Bool, false, some, List, All, In, In-All,
  length,
}
use load_balancer_comparison.Base.Int.{ℤ, pos, ltb_ℤ}
use load_balancer_comparison.Backend.{Addr, second}
use load_balancer_comparison.Store.{Store}
use load_balancer_comparison.Pool.{ServerPool, next_available_peer}
use load_balancer_comparison.Balancer.{Outcome, responded, failed}
use load_balancer_comparison.Health.{Event, health_check, is_backend_alive, is_ok}
use load_balancer_comparison.Health.Ends.{IsFair, health_check_marks, chosen_passed_probe}
use load_balancer_comparison.TestBackend.{Backend}
use load_balancer_comparison.TestBackend.Handlers.{handle_health, health_sleep}
use load_balancer_comparison.TestBackend.Requests.{Request, serve_all}
use load_balancer_comparison.TestBackend.Control.{KeepsFailing, post, fail_health_lasts}

probe_status :
    (get : String → Outcome) (url : String) (code : ℕ)
    → get (url ^^ "/health") ≡ responded code
    → is_backend_alive get url ≡ is_ok (responded code)
unfolding is_backend_alive
probe_status get url code e = rw e refl

-- The probe's client waits for two seconds.
abbrev pub answers_in_time : {F : Type 0} → Backend F → Bool
answers_in_time b = ltb_ℤ (health_sleep b.failure_mode) (pos (2 * second))

module _ (F : Type 0) (lower : F → F → Bool) (zero_rate full_rate : F) where
  -- What the client of a probe gets of the health handler; the way there and back takes no time.
  unfoldable pub probe_health : Backend F → Outcome
  unfolding handle_health health_sleep
  probe_health b =
      if answers_in_time b
      then responded (handle_health F lower zero_rate full_rate b).0.status
      else failed "Client.Timeout exceeded while awaiting headers"

  probe_health_quick :
      (b : Backend F)
      → answers_in_time b ≡ true
      → probe_health b ≡ responded (handle_health F lower zero_rate full_rate b).0.status
  unfolding probe_health
  probe_health_quick b e = rw e refl

  -- A test backend that was told to fail its health checks is marked down by the next health check of
  -- the load balancer, whatever it has served since, unless it was told to recover; it is then not
  -- chosen for a request. The probe gets what the health handler answers, and that handler must not
  -- have been told to sleep for the probe's timeout of two seconds or longer: such a probe asks the
  -- root address instead. The goroutines of the check get their steps.
  pub failing_backend_goes_down :
      (network : Addr → String → Outcome) (events : List Event) (pool : ServerPool) (s s' : Store)
      (p : Addr) (rate : F) (delay : ℤ) (b : Backend F) (requests : List (Request F))
      → IsFair (length pool.backends) events
      → In p pool.backends
      → All (KeepsFailing F lower zero_rate full_rate) requests
      → let later =
          serve_all F lower zero_rate full_rate requests
            (post F lower zero_rate full_rate "fail_health" rate delay b) in
        answers_in_time later ≡ true
        → network p ((s.heap p).url ^^ "/health") ≡ probe_health later
        → health_check network events pool s ≡ some s'
        → ((s'.heap p).alive ≡ false) × ((next_available_peer pool s').0 ≢ some p)
  failing_backend_goes_down network events pool s s' p rate delay b requests fair member keeps quick
        answers returned =
      let down : is_backend_alive (network p) (s.heap p).url ≡ false =
        probe_status (network p) (s.heap p).url _ (answers ∙ probe_health_quick _ quick)
        ∙ ap (λ code. is_ok (responded code))
            (fail_health_lasts F lower zero_rate full_rate rate delay b requests keeps) in
      let (s1, returns, marks) = health_check_marks network events pool s fair in
      let same_store : s1 ≡ s' = cc (returns, returned) in
      let marked : (s1.heap p).alive ≡ is_backend_alive (network p) (s.heap p).url =
        In-All (λ q. (s1.heap q).alive ≡ is_backend_alive (network q) (s.heap q).url) pool.backends
          p marks member in
      (
        subst (λ (t : Store). (t.heap p).alive ≡ false) same_store (marked ∙ down),
        λ chosen. cc (chosen_passed_probe network events pool s s' p fair returned chosen, down),
      )
