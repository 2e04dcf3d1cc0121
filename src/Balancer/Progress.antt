-- ===== src/Balancer/Progress.antt =====
-- loadbalancer.go: the retries end, and how many requests are forwarded at most.
use load_balancer_comparison.Base.{
  ℕ, zero, suc, ◌+◌, ◌-◌, ◌^◌, ◌≤◌, ◌<◌, ◌≡◌, refl, ap, ◌∙◌, true, Option, none, some, Bool-cases,
  inl, inr, arith,
}
use load_balancer_comparison.Base.Int.{ℤ, pos, ◌≤ℤ◌, pos_part, add64, ltb_ℤ, wrap64, ◌+ℤ◌}
use load_balancer_comparison.Backend.{Addr}
use load_balancer_comparison.Pool.{next_available_peer, get_pool_summary}
use load_balancer_comparison.Balancer.{
  System, Request, Writer, Outcome, responded, failed, recorder, Handler, error_handler, answer,
  serve_http, forward, load_balance, disconnect, get_retry_from_context, http_error, write_header,
}
use load_balancer_comparison.Balancer.Cases.{retried, recorded, listed, connected}
use load_balancer_comparison.Balancer.Writers.{write_header_frame}

-- The handler returns, and forwards no more than the given number of requests.
abbrev pub EndsWithin : ℕ → Option System → System → Type 0
EndsWithin n result sys = (sys' : System) × (result ≡ some sys') × (sys'.sent ≤ sys.sent + n)

pub write_header-sent :
    (w : Writer) (code : ℕ) (sys : System) → (write_header w code sys).sent ≡ sys.sent
write_header-sent w code sys = ap (λ (x : System). x.sent) (write_header_frame w code sys)

-- The requests that may still be forwarded when a request has been retried `n` times.
abbrev pub retries_left : System → ℕ → ℕ
retries_left sys n = pos_part sys.config.max_retries - n

pub next_retry :
    (n : ℕ) (m : ℤ)
    → m ≤ℤ pos (2 ^ 63 - 1)
    → ltb_ℤ (pos n) m ≡ true
    → add64 (pos n) (pos 1) ≡ pos (suc n)
unfolding wrap64 ◌+ℤ◌
next_retry n m h l = ground arith

pub retried_lem :
    (r : Request) → get_retry_from_context (retried r) ≡ add64 (get_retry_from_context r) (pos 1)
unfolding get_retry_from_context
retried_lem r = refl

below_limit : (n : ℕ) (m : ℤ) → ltb_ℤ (pos n) m ≡ true → n < pos_part m
below_limit n m h = ground arith

module _ (again : Handler) (n : ℕ) (limit : ℤ)
    (next : (w : Writer) (r : Request) (sys : System)
      → get_retry_from_context r ≡ pos (suc n)
      → sys.config.max_retries ≡ limit
      → n < pos_part limit
      → EndsWithin (1 + (pos_part limit - suc n)) (again w r sys) sys)
    (small : limit ≤ℤ pos (2 ^ 63 - 1)) where
  error_handler_ends :
      (p : Addr) (w : Writer) (r : Request) (sys : System)
      → get_retry_from_context r ≡ pos n
      → sys.config.max_retries ≡ limit
      → EndsWithin (pos_part limit - n) (error_handler again p w r sys) sys
  unfolding error_handler http_error
  error_handler_ends p w r sys e m =
      elim (Bool-cases (ltb_ℤ (get_retry_from_context r) sys.config.max_retries)) [
        | inl more ↦
            let below : ltb_ℤ (pos n) limit ≡ true = rw (e, m) at more in
            let (sys', done, few) =
              next w (retried r) (record sys { store = listed p sys })
                (retried_lem r ∙ ap (λ k. add64 k (pos 1)) e ∙ next_retry n limit small below) m
                (below_limit n limit below) in
            (sys', rw more done, omega (arith, few, below_limit n limit below))
        | inr last ↦
            let failing : System = record sys { store = recorded p sys.store } in
            (write_header w 503 failing, rw last, omega (arith, write_header-sent w 503 failing))
      ]

  answer_ends :
      (o : Outcome) (handler : Option Addr) (w : Writer) (r : Request) (sys : System)
      → get_retry_from_context r ≡ pos n
      → sys.config.max_retries ≡ limit
      → EndsWithin (pos_part limit - n) (answer again o handler w r sys) sys
  unfolding answer
  answer_ends (responded code) handler w r sys e m =
      (write_header w code sys, refl, omega (arith, write_header-sent w code sys))
  answer_ends (failed t) none w r sys e m =
      (write_header w 502 sys, refl, omega (arith, write_header-sent w 502 sys))
  answer_ends (failed t) (some p) w r sys e m = error_handler_ends p w r sys e m

  forward_ends :
      (o : Option Addr) (w : Writer) (r : Request) (sys : System)
      → get_retry_from_context r ≡ pos n
      → sys.config.max_retries ≡ limit
      → EndsWithin (1 + (pos_part limit - n)) (forward again o w r sys) sys
  unfolding forward http_error serve_http
  forward_ends none w r sys e m =
      let summed : System = record sys { store = (get_pool_summary sys.pool sys.store).1 } in
      (write_header w 503 summed, refl, omega (arith, write_header-sent w 503 summed))
  forward_ends (some p) w r sys e m =
      let asked : System = connected p sys in
      let (sys', done, few) =
        answer_ends (asked.network asked.sent p) (asked.store.heap p).error_handler (recorder p w) r
          (record asked { sent = suc asked.sent }) e m in
      (disconnect p sys', rw (done, forward), omega (arith, few))

-- A handler that is given fuel for one attempt and each retry that is left returns, and it forwards
-- the request at most once and once more for each of those retries. The request has been retried
-- some number of times, and the maximum of retries is not above that of int64.
pub load_balance_ends :
    (fuel n : ℕ) (w : Writer) (r : Request) (sys : System)
    → get_retry_from_context r ≡ pos n
    → sys.config.max_retries ≤ℤ pos (2 ^ 63 - 1)
    → retries_left sys n < fuel
    → EndsWithin (1 + retries_left sys n) (load_balance fuel w r sys) sys
unfolding load_balance
load_balance_ends zero n w r sys e small enough = elim enough [ ]
load_balance_ends (suc fuel) n w r sys e small enough =
    let (peer, pool', s') = next_available_peer sys.pool sys.store in
    forward_ends (load_balance fuel) n sys.config.max_retries
      (λ w' r' sys' e' m' below.
        let same : pos_part sys'.config.max_retries ≡ pos_part sys.config.max_retries =
          ap pos_part m' in
        let (sys'', done, few) =
          load_balance_ends fuel (suc n) w' r' sys' e' (rw m' small) (omega arith) in
        (sys'', done, omega (arith, few)))
      small peer w r (record sys { pool = pool'; store = s' }) e refl
