-- ===== src/Startup/Turns.antt =====
-- loadbalancer.go: requests one after another take turns among the backends.
use Prim.Native.String.{String}
use text.Mathlib.Text.{◌==◌ as str_eq}
use native.Mathlib.Nat.{mod-eq_of_lt}
use mathlib.Core.Path.{subst}
use load_balancer_comparison.Base.{
  ℕ, zero, suc, ◌+◌, ◌%◌, ◌^◌, ◌<◌, ◌≡◌, refl, sym, ap, ◌∙◌, Bool, true, false, Option, none, some,
  List, [], ◌∷◌, All, length, get_elem?, Bool-cases, inl, inr, arith,
}
use load_balancer_comparison.Backend.{Addr, add_connection}
use load_balancer_comparison.Store.{Store, modify}
use load_balancer_comparison.Store.Looks.{look-Eases}
use load_balancer_comparison.Algorithms.{round_robin}
use load_balancer_comparison.Balancer.{
  System, Request, client, responded, load_balance, is_server_error, is_success, record_status,
  write_header,
}
use load_balancer_comparison.Balancer.Cases.{connected}
use load_balancer_comparison.Balancer.Robust.{
  AllRobust, Eases-AllRobust, add_connection-AllRobust, remove_connection-AllRobust,
  record_success-AllRobust, next_available_peer-Robust,
}
use load_balancer_comparison.Balancer.Attempts.{turned, replied, forward-replied, load_balance_step}
use load_balancer_comparison.Startup.{serve_path, serve_requests}

-- A request that `Start` routes to `loadBalance`.
abbrev pub IsProxied : (String → Bool) → Request → Type 0
IsProxied is_clean r =
    (is_clean r.path ≡ true)
    × (str_eq r.path "/health" ≡ false)
    × (str_eq r.path "/stats" ≡ false)
    × (str_eq r.path "/circuit-breakers" ≡ false)

proxied :
    (is_clean : String → Bool) (fuel : ℕ) (r : Request) (sys : System)
    → IsProxied is_clean r
    → serve_path is_clean fuel client r sys ≡ load_balance fuel client r sys
unfolding serve_path
proxied is_clean fuel r sys h = rw (h.0, h.1, h.2, h.3) refl

record_status-AllRobust :
    (n : ℕ) (p : Addr) (code : ℕ) (s : Store) (ps : List Addr)
    → is_server_error code ≡ false
    → AllRobust n s ps
    → AllRobust n (record_status p code s) ps
unfolding record_status
record_status-AllRobust n p code s ps e robust = elim (Bool-cases (is_success code)) [
  | inl good ↦ rw (e, good) (record_success-AllRobust n p s ps robust)
  | inr other ↦ rw (e, other) robust
]

-- A load balancer with round robin at the counter `c`, in which every backend answers with a status of
-- its own that is no server error.
pub record Turning (code : Addr → ℕ) (c : ℕ) (sys : System) : Type 0 where
  pub turn : sys.pool.algorithm ≡ round_robin c
  pub robust : AllRobust 0 sys.store sys.pool.backends
  pub live : 0 < length sys.pool.backends
  pub network : (i : ℕ) (p : Addr) → sys.network i p ≡ responded (code p)
  pub fine : (p : Addr) → is_server_error (code p) ≡ false

abbrev status_of : (Addr → ℕ) → Option Addr → Option ℕ
status_of code none = none
status_of code (some p) = some (code p)

-- The statuses of the backends from the counter on, in a circle.
abbrev pub turns : (Addr → ℕ) → List Addr → ℕ → ℕ → List (Option ℕ)
turns code ps c zero = []
turns code ps c (suc k) = status_of code (get_elem? ps (c % length ps)) ∷ turns code ps (c + 1) k

next_Turning :
    (code : Addr → ℕ) (c : ℕ) (sys : System) (p : Addr)
    → c + 1 < 2 ^ 64
    → Turning code c sys
    → Turning code (c + 1) (replied p client (code p) (turned c sys))
unfolding write_header
next_Turning code c sys p h t =
    let ps : List Addr = sys.pool.backends in
    let added : Store = modify add_connection p sys.store in
    let asked : Store = (connected p sys).store in
    record {
      turn = ap round_robin (mod-eq_of_lt h);
      robust = remove_connection-AllRobust 0 p (record_status p (code p) asked) ps (
          record_status-AllRobust 0 p (code p) asked ps (t.fine p) (
            Eases-AllRobust 0 added asked ps (look-Eases p added)
              (add_connection-AllRobust 0 p sys.store ps t.robust)));
      live = t.live;
      network = t.network;
      fine = t.fine;
    }

load_balance_turn :
    (fuel : ℕ) (code : Addr → ℕ) (c : ℕ) (r : Request) (sys : System)
    → c < 2 ^ 64
    → Turning code c sys
    → (p : Addr) × (load_balance (suc fuel) client r sys
        ≡ some (replied p client (code p) (turned c sys)))
      × (get_elem? sys.pool.backends (c % length sys.pool.backends) ≡ some p)
load_balance_turn fuel code c r sys h t =
    let (p, now, at) = next_available_peer-Robust 0 c sys.pool sys.store t.turn h t.live t.robust in
    (
      p,
      load_balance_step fuel client r sys _ _ _ now
          ∙ forward-replied (load_balance fuel) p client r (turned c sys) (code p)
              (t.network sys.sent p),
      at,
    )

serve_requests_step :
    (is_clean : String → Bool) (fuel : ℕ) (r : Request) (rs : List Request) (sys next sys' : System)
    (statuses : List (Option ℕ))
    → serve_path is_clean fuel client r (record sys { response = none }) ≡ some next
    → serve_requests is_clean fuel rs next ≡ some (statuses, sys')
    → serve_requests is_clean fuel (r ∷ rs) sys ≡ some (next.response ∷ statuses, sys')
unfolding serve_requests
serve_requests_step is_clean fuel r rs sys next sys' statuses e f = rw (serve_requests, e, f) refl

-- When every backend of the pool is alive with a closed circuit and answers every request with its own
-- status, which is no server error, then requests that `Start` routes to `loadBalance` and that follow
-- each other are answered by the backends in turn, in the pool's order from the counter of round robin
-- on, as long as the counter does not overflow. The load balancer is then in such a state again, with
-- the counter as many places further.
pub serve_requests-turns :
    (is_clean : String → Bool) (fuel : ℕ) (rs : List Request) (code : Addr → ℕ) (c : ℕ)
    (sys : System)
    → All (IsProxied is_clean) rs
    → c + length rs < 2 ^ 64
    → Turning code c sys
    → (sys' : System) × (serve_requests is_clean (suc fuel) rs sys
        ≡ some (turns code sys.pool.backends c (length rs), sys'))
      × Turning code (c + length rs) sys'
unfolding serve_requests write_header
serve_requests-turns is_clean fuel [] code c sys ways h t =
    (sys, refl, subst (λ k. Turning code k sys) (omega arith) t)
serve_requests-turns is_clean fuel (r ∷ rs) code c sys ways h t =
    let start : System = record sys { response = none } in
    let ready : Turning code c start = record {
      turn = t.turn;
      robust = t.robust;
      live = t.live;
      network = t.network;
      fine = t.fine;
    } in
    let (p, done, at) = load_balance_turn fuel code c r start (omega arith) ready in
    let next : System = replied p client (code p) (turned c start) in
    let (sys', rest, t') =
      serve_requests-turns is_clean fuel rs code (c + 1) next ways.1 (omega arith)
        (next_Turning code c start p (omega arith) ready) in
    (
      sys',
      serve_requests_step is_clean (suc fuel) r rs sys next sys' _
            (proxied is_clean (suc fuel) r start ways.0 ∙ done) rest
          ∙ ap
              (λ o.
                some (status_of code o ∷ turns code sys.pool.backends (c + 1) (length rs), sys'))
              (sym at),
      subst (λ k. Turning code k sys') (omega arith) t',
    )
