-- ===== src/Balancer/Exhausted.antt =====
-- loadbalancer.go: when no backend answers, all retries are used and the client is told so.
use mathlib.Core.Path.{subst}
use load_balancer_comparison.Base.{
  ℕ, zero, suc, ◌+◌, ◌%◌, ◌^◌, ◌<◌, ◌≡◌, refl, ap, ◌∙◌, sym, false, Option, none, some, In, length,
  arith,
}
use load_balancer_comparison.Base.Int.{pos, ltb_ℤ, add64}
use load_balancer_comparison.Backend.{Addr}
use load_balancer_comparison.Algorithms.{round_robin}
use load_balancer_comparison.Algorithms.RoundRobin.{In-of_get_elem?}
use load_balancer_comparison.Balancer.{
  String, System, Request, Writer, recorder, failed, load_balance, forward, disconnect,
  get_retry_from_context,
}
use load_balancer_comparison.Balancer.Cases.{retried}
use load_balancer_comparison.Balancer.Progress.{retried_lem, next_retry}
use load_balancer_comparison.Balancer.Robust.{AllRobust, next_available_peer-Robust}
use load_balancer_comparison.Balancer.Attempts.{
  asked_own, turned, below, noted, noted-AllRobust, forward_failed, forward_last, load_balance_step,
}

-- The client has been sent 503 after exactly `n` attempts.
abbrev pub Refused : ℕ → System → Option System → Type 0
Refused n sys result =
    (sys' : System) × (result ≡ some sys') × (sys'.response ≡ some 503) × (sys'.sent ≡ sys.sent + n)

-- A request with `d` of its `m` retries left, in a pool where nobody answers.
record Exhausting (d k m c : ℕ) (r : Request) (sys : System) : Type 0 where
  limit : sys.config.max_retries ≡ pos m
  small : m < 2 ^ 63
  retries : get_retry_from_context r ≡ pos k
  left : k + d ≡ m
  turn : sys.pool.algorithm ≡ round_robin c
  low : c < 2 ^ 64
  robust : AllRobust d sys.store sys.pool.backends
  network : (i : ℕ) (p : Addr) → (t : String) × (sys.network i p ≡ failed t)
  live : 0 < length sys.pool.backends
  unanswered : sys.response ≡ none

next_Exhausting :
    (d k m c : ℕ) (r : Request) (sys : System) (p : Addr)
    → Exhausting (suc d) k m c r sys
    → Exhausting d (suc k) m ((c + 1) % 2 ^ 64) (retried r) (noted p (turned c sys))
next_Exhausting d k m c r sys p t = record {
  limit = t.limit;
  small = t.small;
  retries =
      retried_lem r
      ∙ ap (λ n. add64 n (pos 1)) t.retries
      ∙ next_retry k (pos m) (omega (arith, t.small)) (below k m (omega (arith, t.left)));
  left = omega (arith, t.left);
  turn = refl;
  low = omega arith;
  robust = noted-AllRobust d p (turned c sys) t.robust;
  network = t.network;
  live = t.live;
  unanswered = t.unanswered;
}

not_below : (k m : ℕ) → k ≡ m → ltb_ℤ (pos k) (pos m) ≡ false
not_below k m h = ground arith

-- The attempt that asks `p`, when `again` is what follows.
attempt-Refused :
    (d fuel k m c : ℕ) (w : Writer) (r : Request) (sys : System) (p : Addr)
    → Exhausting d k m c r sys
    → In p sys.pool.backends
    → ((j k c : ℕ) (w : Writer) (r : Request) (sys : System)
        → Exhausting j k m c r sys
        → suc j ≡ d
        → Refused (suc j) sys (load_balance fuel w r sys))
    → Refused (suc d) sys (forward (load_balance fuel) (some p) w r (turned c sys))
attempt-Refused zero fuel k m c w r sys p t member next =
    let (text, e) = t.network sys.sent p in
    let (sys', done, sent, count) =
      forward_last (load_balance fuel) p w r (turned c sys) text e
        (asked_own zero c p sys t.robust member)
        (rw (t.retries, t.limit) (not_below k m (omega (arith, t.left)))) t.unanswered in
    (sys', done, sent, omega (arith, count))
attempt-Refused (suc d) fuel k m c w r sys p t member next =
    let (text, e) = t.network sys.sent p in
    let (sys', done, sent, count) =
      next d (suc k) _ (recorder p w) (retried r) (noted p (turned c sys))
        (next_Exhausting d k m c r sys p t) refl in
    (
      disconnect p sys',
      forward_failed (load_balance fuel) p w r (turned c sys) sys' text e
          (asked_own (suc d) c p sys t.robust member)
          (rw (t.retries, t.limit) (below k m (omega (arith, t.left)))) done,
      sent,
      omega (arith, count),
    )

load_balance-Refused :
    (d fuel k m c : ℕ) (w : Writer) (r : Request) (sys : System)
    → Exhausting d k m c r sys
    → d < fuel
    → Refused (suc d) sys (load_balance fuel w r sys)
load_balance-Refused d zero k m c w r sys t h = elim h [ ]
load_balance-Refused d (suc fuel) k m c w r sys t h =
    let (p, now, at) =
      next_available_peer-Robust d c sys.pool sys.store t.turn t.low t.live t.robust in
    subst (Refused (suc d) sys) (sym (load_balance_step fuel w r sys _ _ _ now)) (
      attempt-Refused d fuel k m c w r sys p t (In-of_get_elem? sys.pool.backends _ p at)
        (λ j k c w r sys t e. load_balance-Refused j fuel k m c w r sys t (omega (arith, e))))

-- When no backend answers, a new request in a pool with round robin is forwarded once and once more
-- for each retry, and then the client is sent 503. The pool must not be empty, its backends must be
-- alive, with circuits that are closed and stay closed for as many errors as there are retries.
pub exhausted :
    (fuel m c : ℕ) (w : Writer) (r : Request) (sys : System)
    → get_retry_from_context r ≡ pos 0
    → sys.config.max_retries ≡ pos m
    → m < 2 ^ 63
    → sys.pool.algorithm ≡ round_robin c
    → c < 2 ^ 64
    → 0 < length sys.pool.backends
    → AllRobust m sys.store sys.pool.backends
    → ((i : ℕ) (p : Addr) → (t : String) × (sys.network i p ≡ failed t))
    → sys.response ≡ none
    → m < fuel
    → Refused (suc m) sys (load_balance fuel w r sys)
exhausted fuel m c w r sys first limit small turn low live robust network unanswered h =
    load_balance-Refused m fuel 0 m c w r sys
      (record {
        limit = limit;
        small = small;
        retries = first;
        left = omega arith;
        turn = turn;
        low = low;
        robust = robust;
        network = network;
        live = live;
        unanswered = unanswered;
      })
      h
