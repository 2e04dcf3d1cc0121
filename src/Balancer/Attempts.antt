-- ===== src/Balancer/Attempts.antt =====
-- loadbalancer.go: one attempt of a request, and what the error handler leaves to the next one.
use load_balancer_comparison.Base.{
  ℕ, suc, ◌≡◌, refl, ap, true, false, ◌∙◌, ◌+◌, ◌%◌, ◌^◌, ◌<◌, In, In-All, arith, Option, none,
  some, List,
}
use load_balancer_comparison.Base.Int.{pos, ltb_ℤ}
use load_balancer_comparison.Backend.{Addr, add_connection}
use load_balancer_comparison.Store.{Store, modify, fail}
use load_balancer_comparison.Store.Looks.{look-Eases}
use load_balancer_comparison.Algorithms.{round_robin}
use load_balancer_comparison.Pool.{ServerPool, next_available_peer}
use load_balancer_comparison.Pool.Survey.{get_available_backends-Eases}
use load_balancer_comparison.Balancer.{
  String, System, Request, Writer, recorder, responded, failed, Handler, load_balance, forward,
  serve_http, answer, error_handler, disconnect, write_header, get_retry_from_context, http_error,
}
use load_balancer_comparison.Balancer.Cases.{recorded, listed, retried, connected}
use load_balancer_comparison.Balancer.Fixed.{connected-SameFixed}
use load_balancer_comparison.Balancer.Progress.{write_header-sent}
use load_balancer_comparison.Balancer.Handled.{write_header-response}
use load_balancer_comparison.Balancer.Robust.{
  Robust, AllRobust, Eases-AllRobust, add_connection-AllRobust, fail-AllRobust,
}

-- The system when the error handler of the peer `p` has noted a failure.
abbrev pub noted : Addr → System → System
noted p sys = record sys { store = listed p (connected p sys); sent = suc sys.sent }

pub noted-AllRobust :
    (n : ℕ) (p : Addr) (sys : System)
    → AllRobust (suc n) sys.store sys.pool.backends
    → AllRobust n (noted p sys).store sys.pool.backends
noted-AllRobust n p sys robust =
    let ps : List Addr = sys.pool.backends in
    let added : Store = modify add_connection p sys.store in
    let asked : Store = (connected p sys).store in
    Eases-AllRobust n (recorded p asked) (listed p (connected p sys)) ps
      (get_available_backends-Eases sys.pool (recorded p asked))
      (Eases-AllRobust n (fail p asked) (recorded p asked) ps (look-Eases p (fail p asked)) (
        fail-AllRobust n p asked ps (
          Eases-AllRobust (suc n) added asked ps (look-Eases p added)
            (add_connection-AllRobust (suc n) p sys.store ps robust))))

-- A peer whose proxy has answered is disconnected.
forward_served :
    (again : Handler) (p : Addr) (w : Writer) (r : Request) (sys sys' : System)
    → serve_http again p (recorder p w) r (connected p sys) ≡ some sys'
    → forward again (some p) w r sys ≡ some (disconnect p sys')
unfolding forward
forward_served again p w r sys sys' served = rw (forward, served) refl

-- The system when the answer of the peer `p` has been written and it is disconnected.
abbrev pub replied : Addr → Writer → ℕ → System → System
replied p w code sys =
    disconnect p
      (write_header (recorder p w) code (record (connected p sys) { sent = suc sys.sent }))

pub forward-replied :
    (again : Handler) (p : Addr) (w : Writer) (r : Request) (sys : System) (code : ℕ)
    → sys.network sys.sent p ≡ responded code
    → forward again (some p) w r sys ≡ some (replied p w code sys)
unfolding serve_http answer
forward-replied again p w r sys code e = forward_served again p w r sys _ (rw e refl)

pub forward_responded :
    (again : Handler) (p : Addr) (w : Writer) (r : Request) (sys : System) (code : ℕ)
    → sys.network sys.sent p ≡ responded code
    → sys.response ≡ none
    → (sys' : System) × (forward again (some p) w r sys ≡ some sys') × (sys'.response ≡ some code)
forward_responded again p w r sys code e none_yet =
    let sent : System = record (connected p sys) { sent = suc sys.sent } in
    (
      replied p w code sys,
      forward-replied again p w r sys code e,
      write_header-response (recorder p w) code sent none_yet,
    )

pub forward_failed :
    (again : Handler) (p : Addr) (w : Writer) (r : Request) (sys sys' : System) (t : String)
    → sys.network sys.sent p ≡ failed t
    → ((connected p sys).store.heap p).error_handler ≡ some p
    → ltb_ℤ (get_retry_from_context r) sys.config.max_retries ≡ true
    → again (recorder p w) (retried r) (noted p sys) ≡ some sys'
    → forward again (some p) w r sys ≡ some (disconnect p sys')
unfolding serve_http answer error_handler
forward_failed again p w r sys sys' t e own more next =
    forward_served again p w r sys sys' (rw (serve_http, e, own, answer, error_handler, more) next)

pub load_balance_step :
    (fuel : ℕ) (w : Writer) (r : Request) (sys : System) (o : Option Addr) (pool' : ServerPool)
    (s' : Store)
    → next_available_peer sys.pool sys.store ≡ (o, pool', s')
    → load_balance (suc fuel) w r sys
      ≡ forward (load_balance fuel) o w r (record sys { pool = pool'; store = s' })
unfolding load_balance
load_balance_step fuel w r sys o pool' s' e =
    ap
      (λ (t : Option Addr × ServerPool × Store).
        forward (load_balance fuel) t.0 w r (record sys { pool = t.1; store = t.2 }))
      e

pub below : (k m : ℕ) → k < m → ltb_ℤ (pos k) (pos m) ≡ true
below k m h = ground arith

-- The turn has passed on.
abbrev pub turned : ℕ → System → System
turned c sys = record sys { pool = record sys.pool { algorithm = round_robin ((c + 1) % 2 ^ 64) } }

pub forward_last :
    (again : Handler) (p : Addr) (w : Writer) (r : Request) (sys : System) (t : String)
    → sys.network sys.sent p ≡ failed t
    → ((connected p sys).store.heap p).error_handler ≡ some p
    → ltb_ℤ (get_retry_from_context r) sys.config.max_retries ≡ false
    → sys.response ≡ none
    → (sys' : System) × (forward again (some p) w r sys ≡ some sys')
      × (sys'.response ≡ some 503)
      × (sys'.sent ≡ suc sys.sent)
unfolding serve_http answer error_handler http_error
forward_last again p w r sys t e own last none_yet =
    let sent : System = record (connected p sys) { sent = suc sys.sent } in
    let failing : System = record sent { store = recorded p sent.store } in
    let written : System = write_header (recorder p w) 503 failing in
    (
      disconnect p written,
      forward_served again p w r sys written
          (rw (serve_http, e, own, answer, error_handler, last, http_error) refl),
      write_header-response (recorder p w) 503 failing none_yet,
      write_header-sent (recorder p w) 503 failing,
    )

-- A peer of a robust pool has its own error handler when it is asked.
pub asked_own :
    (n c : ℕ) (p : Addr) (sys : System)
    → AllRobust n sys.store sys.pool.backends
    → In p sys.pool.backends
    → ((connected p (turned c sys)).store.heap p).error_handler ≡ some p
asked_own n c p sys robust member =
    ap (λ f. f.2) ((connected-SameFixed p (turned c sys)).same p)
    ∙ (In-All (λ q. Robust n q (sys.store.heap q)) sys.pool.backends p robust member).own
