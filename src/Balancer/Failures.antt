-- ===== src/Balancer/Failures.antt =====
-- loadbalancer.go: what failed attempts leave behind in the breakers.
use mathlib.Core.Path.{subst}
use native.Mathlib.Decide.{ℕ_discrete}
use load_balancer_comparison.Base.{
  ◌≢◌, ◌==◌, ◌+◌, List, [], ◌∷◌, if◌then◌else◌, All, ◌-◌, ℕ, suc, ◌^◌, ◌≡◌, refl, sym, ap, ◌∙◌,
  true, false, none, some, inl, arith,
}
use load_balancer_comparison.Base.Int.{ℤ, pos, ltb_ℤ, wrap64, ◌+ℤ◌, ◌<ℤ◌, ◌≤ℤ◌}
use load_balancer_comparison.Backend.{Addr, Backend, is_circuit_open, record_error}
use load_balancer_comparison.Store.{Store, fail, look}
use load_balancer_comparison.Pool.Down.{Unready, next_available_peer-none}
use load_balancer_comparison.Pool.{get_pool_summary, next_available_peer}
use load_balancer_comparison.Balancer.{
  System, Request, Writer, recorder, client, Handler, error_handler, forward, load_balance,
  http_error, write_header, record_status, is_success, get_retry_from_context, first_status,
}
use load_balancer_comparison.Balancer.Cases.{some_eq, recorded, forward_cases, connected}
use load_balancer_comparison.Balancer.Fixed.{update_away}
use load_balancer_comparison.Store.Looks.{look_other}
use load_balancer_comparison.Balancer.Writers.{recorders, write_header_frame, IsReset}
use load_balancer_comparison.Balancer.Reply.{
  load_balance-Replied, serve_http-Replies, disconnect-IsReset,
}

-- When the client is sent a success, the first peer that was tried has no error counted and a closed
-- circuit, even if its own attempt has failed and the success came from another backend. Before, the
-- client had not been sent a status.
pub success_resets_first_peer :
    (fuel : ℕ) (w : Writer) (r : Request) (sys sys' : System) (p : Addr) (code : ℕ)
    → sys.response ≡ none
    → (next_available_peer sys.pool sys.store).0 ≡ some p
    → load_balance (suc fuel) w r sys ≡ some sys'
    → sys'.response ≡ some code
    → is_success code ≡ true
    → IsReset (sys'.store.heap p)
unfolding load_balance
success_resets_first_peer fuel w r sys sys' p code e chosen h sent ok =
    let (peer, pool', s') = next_available_peer sys.pool sys.store in
    let ready : System = record sys { pool = pool'; store = s' } in
    let (sys'', served, done) =
      forward_cases (load_balance fuel) p w r ready sys'
        (subst (λ o. forward (load_balance fuel) o w r ready ≡ some sys') chosen h) in
    let replied =
      serve_http-Replies (load_balance fuel) (load_balance-Replied fuel) p (recorder p w) r
        (connected p ready) sys'' e served in
    let same : replied.code ≡ code =
      some_eq (sym replied.sent_code ∙ ap (λ (x : System). x.response) (sym done) ∙ sent) in
    subst (λ (x : System). IsReset (x.store.heap p)) (sym done)
      (disconnect-IsReset p p sys''.store
        (replied.resets (ap (λ c. is_success c) same ∙ ok) p (inl refl)))

fail_quietly :
    (p : Addr) (s : Store) (n : ℕ) (limit : ℤ)
    → (s.heap p).consecutive_errors ≡ pos n
    → (s.heap p).max_consecutive_errors ≡ limit
    → (s.heap p).circuit_open ≡ false
    → pos (suc n) <ℤ limit
    → limit ≤ℤ pos (2 ^ 63 - 1)
    → let b = (look p (fail p s)).1.heap p in
      (b.consecutive_errors ≡ pos (suc n))
      × (b.max_consecutive_errors ≡ limit)
      × (b.circuit_open ≡ false)
unfolding look fail is_circuit_open record_error wrap64 ◌+ℤ◌
fail_quietly p s n limit e m c below small = ground arith

abbrev one_at : Addr → Addr → ℕ
one_at q p = if p == q then 1 else 0

one_here : (p q : Addr) → p ≡ q → one_at q p ≡ 1
one_here p q e = ground arith

none_here : (p q : Addr) → p ≢ q → one_at q p ≡ 0
none_here p q e = ground arith

-- How often a backend occurs.
abbrev pub times : Addr → List Addr → ℕ
times q [] = 0
times q (p ∷ ps) = one_at q p + times q ps

-- A closed circuit that counts `n` errors.
abbrev pub Counting : ℕ → ℤ → Backend → Type 0
Counting n limit b =
    (b.consecutive_errors ≡ pos n) × (b.max_consecutive_errors ≡ limit) × (b.circuit_open ≡ false)

fail_other : (p q : Addr) (s : Store) → p ≢ q → (fail p s).heap q ≡ s.heap q
unfolding fail
fail_other p q s h = update_away s.heap p q _ h

failed_counts :
    (p q : Addr) (s : Store) (n k : ℕ) (limit : ℤ)
    → Counting n limit (s.heap q)
    → pos (n + (one_at q p + k)) <ℤ limit
    → limit ≤ℤ pos (2 ^ 63 - 1)
    → Counting (n + one_at q p) limit ((look p (fail p s)).1.heap q)
failed_counts p q s n k limit c below small = elim (ℕ_discrete p q) [
  | yes e ↦
      let once : n + one_at q p ≡ suc n = omega (arith, one_here p q e) in
      subst (λ x. Counting (n + one_at q p) limit ((look p (fail p s)).1.heap x)) e
        (subst (λ m. Counting m limit ((look p (fail p s)).1.heap p)) (sym once)
          (fail_quietly p s n limit (rw e c.0) (rw e c.1) (rw e c.2)
            (omega (arith, below, one_here p q e)) small))
  | no away ↦
      subst (λ b. Counting (n + one_at q p) limit b)
        (sym (look_other p q (fail p s) away ∙ fail_other p q s away))
        (subst (λ m. Counting m limit (s.heap q)) (omega (arith, none_here p q away)) c)
]

write_header_counts :
    (w : Writer) (q : Addr) (sys : System) (n : ℕ) (limit : ℤ)
    → Counting n limit (sys.store.heap q)
    → pos (n + times q (recorders w)) <ℤ limit
    → limit ≤ℤ pos (2 ^ 63 - 1)
    → Counting (n + times q (recorders w)) limit ((write_header w 503 sys).store.heap q)
unfolding write_header record_status
write_header_counts client q sys n limit c below small =
    subst (λ m. Counting m limit (sys.store.heap q)) (omega arith) c
write_header_counts (recorder p w) q sys n limit c below small =
    let s' : Store = recorded p sys.store in
    subst (λ m. Counting m limit ((write_header w 503 (record sys { store = s' })).store.heap q))
      (omega arith)
      (write_header_counts w q (record sys { store = s' }) (n + one_at q p) limit
        (failed_counts p q sys.store n (times q (recorders w)) limit c below small)
        (omega (arith, below)) small)

-- When the last attempt of a request fails, its own backend is charged with an error by the error
-- handler, and then every backend once for each of its recorders that the 503 for the client passes:
-- that of the last attempt and those of all attempts before. The client is sent 503, unless it has been
-- sent a status before. The count of errors of the backend that is looked at is not negative and stays
-- below the limit of its breaker, which fits an int64, and its circuit is closed.
pub last_failure_counts :
    (again : Handler) (p q : Addr) (w : Writer) (r : Request) (sys : System) (n : ℕ) (limit : ℤ)
    → ltb_ℤ (get_retry_from_context r) sys.config.max_retries ≡ false
    → Counting n limit (sys.store.heap q)
    → pos (n + times q (p ∷ recorders w)) <ℤ limit
    → limit ≤ℤ pos (2 ^ 63 - 1)
    → (sys' : System) × (error_handler again p w r sys ≡ some sys')
      × Counting (n + times q (p ∷ recorders w)) limit (sys'.store.heap q)
      × (sys'.response ≡ first_status sys.response 503)
unfolding error_handler http_error
last_failure_counts again p q w r sys n limit last c below small =
    let failing : System = record sys { store = recorded p sys.store } in
    (
      write_header w 503 failing,
      rw last refl,
      subst (λ m. Counting m limit ((write_header w 503 failing).store.heap q)) (omega arith)
          (write_header_counts w q failing (n + one_at q p) limit
            (failed_counts p q sys.store n (times q (recorders w)) limit c below small)
            (omega (arith, below)) small),
      ap (λ (x : System). x.response) (write_header_frame w 503 failing),
    )

no_peer_unavailable :
    (fuel : ℕ) (r : Request) (sys : System)
    → sys.response ≡ none
    → (next_available_peer sys.pool sys.store).0 ≡ none
    → (sys' : System) × (load_balance (suc fuel) client r sys ≡ some sys')
      × (sys'.response ≡ some 503)
      × (sys'.sent ≡ sys.sent)
unfolding load_balance forward http_error write_header
no_peer_unavailable fuel r sys e none_left =
    let (peer, pool', s') = next_available_peer sys.pool sys.store in
    let summed : System = record sys { pool = pool'; store = (get_pool_summary pool' s').1 } in
    (write_header client 503 summed, rw none_left, rw e, refl)

-- When every backend of the pool is down, or has an open circuit that times out at no reading of the
-- clock, the client is sent 503, and nothing is forwarded.
pub load_balance_unavailable :
    (fuel : ℕ) (r : Request) (sys : System)
    → sys.response ≡ none
    → All (Unready sys.store) sys.pool.backends
    → (sys' : System) × (load_balance (suc fuel) client r sys ≡ some sys')
      × (sys'.response ≡ some 503)
      × (sys'.sent ≡ sys.sent)
load_balance_unavailable fuel r sys e u =
    no_peer_unavailable fuel r sys e (next_available_peer-none sys.pool sys.store u)
