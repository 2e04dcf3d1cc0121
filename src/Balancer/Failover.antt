-- ===== src/Balancer/Failover.antt =====
-- loadbalancer.go: retries find a backend that answers.
use mathlib.Core.Path.{subst}
use native.Mathlib.Nat.{mod-eq_of_lt}
use load_balancer_comparison.Base.{
  ℕ, zero, suc, ◌+◌, ◌%◌, ◌^◌, ◌<◌, ◌≤◌, ◌≡◌, refl, ap, ◌∙◌, sym, inl, inr, ◌⊎◌, Bool, true, false,
  Option, none, some, List, [], ◌∷◌, length, get_elem?, In, arith,
}
use load_balancer_comparison.Base.Int.{pos, ltb_ℤ, add64}
use load_balancer_comparison.Backend.{Addr}
use load_balancer_comparison.Algorithms.{round_robin}
use load_balancer_comparison.Algorithms.RoundRobin.{In-of_get_elem?}
use load_balancer_comparison.Balancer.{
  String, System, Request, Writer, recorder, Outcome, responded, failed, load_balance, forward,
  disconnect, get_retry_from_context,
}
use load_balancer_comparison.Balancer.Cases.{some_eq, retried, connected}
use load_balancer_comparison.Balancer.Progress.{retried_lem, next_retry}
use load_balancer_comparison.Balancer.Rotation.{count, count-rotate}
use load_balancer_comparison.Balancer.Robust.{AllRobust, AllRobust-less, next_available_peer-Robust}
use load_balancer_comparison.Balancer.Attempts.{
  asked_own, turned, below, noted, noted-AllRobust, forward_responded, forward_failed,
  load_balance_step,
}

-- The request has been answered by a member of the list that the network reaches.
abbrev pub Delivered : (Addr → Outcome) → List Addr → Option System → Type 0
Delivered steady ps result =
    (sys' : System) × (code : ℕ) × (p : Addr) × (result ≡ some sys')
    × (sys'.response ≡ some code)
    × In p ps
    × (steady p ≡ responded code)

Outcome-cases :
    (o : Outcome) → ((code : ℕ) × (o ≡ responded code)) ⊎ ((e : String) × (o ≡ failed e))
Outcome-cases (responded code) = inl (code, refl)
Outcome-cases (failed e) = inr (e, refl)

-- A request that has been retried `k` times out of `m`; `d` steps from the counter `c` there is a
-- backend that answers.
record Trying (steady : Addr → Outcome) (d k m c : ℕ) (r : Request) (sys : System) : Type 0 where
  limit : sys.config.max_retries ≡ pos m
  small : m < 2 ^ 63
  retries : get_retry_from_context r ≡ pos k
  enough : k + d ≤ m
  turn : sys.pool.algorithm ≡ round_robin c
  low : c + d < 2 ^ 64
  robust : AllRobust d sys.store sys.pool.backends
  network : (i : ℕ) (p : Addr) → sys.network i p ≡ steady p
  goal : Addr
  code : ℕ
  at : get_elem? sys.pool.backends ((c + d) % length sys.pool.backends) ≡ some goal
  answers : steady goal ≡ responded code
  unanswered : sys.response ≡ none

next_Trying :
    (steady : Addr → Outcome) (d k m c : ℕ) (r : Request) (sys : System) (p : Addr)
    → Trying steady (suc d) k m c r sys
    → Trying steady d (suc k) m (c + 1) (retried r) (noted p (turned c sys))
next_Trying steady d k m c r sys p t = record {
  limit = t.limit;
  small = t.small;
  retries =
      retried_lem r
      ∙ ap (λ n. add64 n (pos 1)) t.retries
      ∙ next_retry k (pos m) (omega (arith, t.small)) (below k m (omega (arith, t.enough)));
  enough = omega (arith, t.enough);
  turn = ap round_robin (mod-eq_of_lt (omega (arith, t.low)));
  low = omega (arith, t.low);
  robust = noted-AllRobust d p (turned c sys) t.robust;
  network = t.network;
  goal = t.goal;
  code = t.code;
  at =
      subst (λ n. get_elem? sys.pool.backends (n % length sys.pool.backends) ≡ some t.goal)
        (omega arith) t.at;
  answers = t.answers;
  unanswered = t.unanswered;
}

at_goal :
    (steady : Addr → Outcome) (k m c : ℕ) (r : Request) (sys : System) (p : Addr) (text : String)
    → Trying steady 0 k m c r sys
    → get_elem? sys.pool.backends (c % length sys.pool.backends) ≡ some p
    → steady p ≡ failed text
    → ⊥
at_goal steady k m c r sys p text t at e =
    let there : p ≡ t.goal = some_eq (
      sym at
      ∙ ap (λ n. get_elem? sys.pool.backends (n % length sys.pool.backends)) (omega arith)
      ∙ t.at) in
    cc (sym e ∙ ap steady there ∙ t.answers)

-- A failed attempt delivers what the retry delivers.
retry_delivers :
    (steady : Addr → Outcome) (d fuel k m c : ℕ) (w : Writer) (r : Request) (sys : System)
    (p : Addr) (text : String)
    → Trying steady (suc d) k m c r sys
    → In p sys.pool.backends
    → steady p ≡ failed text
    → Delivered steady sys.pool.backends
        (load_balance fuel (recorder p w) (retried r) (noted p (turned c sys)))
    → Delivered steady sys.pool.backends (forward (load_balance fuel) (some p) w r (turned c sys))
retry_delivers steady d fuel k m c w r sys p text t member e next =
    let (sys', code, q, done, sent, inside, answers) = next in
    let own : ((connected p (turned c sys)).store.heap p).error_handler ≡ some p =
      asked_own (suc d) c p sys t.robust member in
    let more : ltb_ℤ (get_retry_from_context r) sys.config.max_retries ≡ true =
      rw (t.retries, t.limit) (below k m (omega (arith, t.enough))) in
    (
      disconnect p sys',
      code,
      q,
      forward_failed (load_balance fuel) p w r (turned c sys) sys' text (t.network sys.sent p ∙ e)
          own more done,
      sent,
      inside,
      answers,
    )

-- A failed attempt is not at the goal, and delivers what the retry delivers.
fails_then :
    (steady : Addr → Outcome) (d fuel k m c : ℕ) (w : Writer) (r : Request) (sys : System)
    (p : Addr) (text : String)
    → Trying steady d k m c r sys
    → get_elem? sys.pool.backends (c % length sys.pool.backends) ≡ some p
    → steady p ≡ failed text
    → d < suc fuel
    → ((j k c : ℕ) (w : Writer) (r : Request) (sys : System)
        → Trying steady j k m c r sys
        → j < fuel
        → Delivered steady sys.pool.backends (load_balance fuel w r sys))
    → Delivered steady sys.pool.backends (forward (load_balance fuel) (some p) w r (turned c sys))
fails_then steady zero fuel k m c w r sys p text t at e h next =
    absurd (at_goal steady k m c r sys p text t at e)
fails_then steady (suc d) fuel k m c w r sys p text t at e h next =
    retry_delivers steady d fuel k m c w r sys p text t (In-of_get_elem? sys.pool.backends _ p at) e
      (next d (suc k) (c + 1) (recorder p w) (retried r) (noted p (turned c sys))
        (next_Trying steady d k m c r sys p t) (omega arith))

not_empty : (ps : List Addr) (i : ℕ) (p : Addr) → get_elem? ps i ≡ some p → 0 < length ps
not_empty [] i p e = cc
not_empty (x ∷ ps) i p e = omega arith

failover_from :
    (steady : Addr → Outcome) (d fuel k m c : ℕ) (w : Writer) (r : Request) (sys : System)
    → Trying steady d k m c r sys
    → d < fuel
    → Delivered steady sys.pool.backends (load_balance fuel w r sys)
failover_from steady d zero k m c w r sys t h = elim h [ ]
failover_from steady d (suc fuel) k m c w r sys t h =
    let (p, now, at) =
      next_available_peer-Robust d c sys.pool sys.store t.turn (omega (arith, t.low))
        (not_empty sys.pool.backends _ t.goal t.at) t.robust in
    let step = load_balance_step fuel w r sys _ _ _ now in
    let member : In p sys.pool.backends = In-of_get_elem? sys.pool.backends _ p at in
    subst (Delivered steady sys.pool.backends) (sym step) (elim (Outcome-cases (steady p)) [
      | inl (code, e) ↦
          let (sys', done, sent) =
            forward_responded (load_balance fuel) p w r (turned c sys) code
              (t.network sys.sent p ∙ e) t.unanswered in
          (sys', code, p, done, sent, member, e)
      | inr (text, e) ↦
          fails_then steady d fuel k m c w r sys p text t at e h
            (λ j k c w r sys. failover_from steady j fuel k m c w r sys)
    ])

abbrev pub is_failed : Outcome → Bool
is_failed (responded code) = false
is_failed (failed e) = true

responds : (o : Outcome) → is_failed o ≡ false → (code : ℕ) × (o ≡ responded code)
responds (responded code) h = (code, refl)
responds (failed e) h = cc

-- Round robin fails over. When what each backend answers does not change during the request, and
-- there are no more failing backends than retries but another backend, then a new request is
-- answered by a backend. The backends must be alive, with circuits that are closed and stay closed
-- for as many errors as there are retries, and the counter must not overflow on the way.
pub failover :
    (steady : Addr → Outcome) (fuel m c : ℕ) (w : Writer) (r : Request) (sys : System)
    → get_retry_from_context r ≡ pos 0
    → sys.config.max_retries ≡ pos m
    → m < 2 ^ 63
    → sys.pool.algorithm ≡ round_robin c
    → c + m < 2 ^ 64
    → AllRobust m sys.store sys.pool.backends
    → ((i : ℕ) (p : Addr) → sys.network i p ≡ steady p)
    → count (λ p. is_failed (steady p)) sys.pool.backends ≤ m
    → count (λ p. is_failed (steady p)) sys.pool.backends < length sys.pool.backends
    → sys.response ≡ none
    → m < fuel
    → Delivered steady sys.pool.backends (load_balance fuel w r sys)
failover steady fuel m c w r sys first limit small turn low robust network few other unanswered h =
    let (d, goal, near, at, good) =
      count-rotate (λ p. is_failed (steady p)) sys.pool.backends c other in
    let (code, answers) = responds (steady goal) good in
    failover_from steady d fuel 0 m c w r sys
      (record {
        limit = limit;
        small = small;
        retries = first;
        enough = omega (arith, near);
        turn = turn;
        low = omega (arith, near);
        robust = AllRobust-less m d sys.store sys.pool.backends (omega (arith, near)) robust;
        network = network;
        goal = goal;
        code = code;
        at = at;
        answers = answers;
        unanswered = unanswered;
      })
      (omega (arith, near))
