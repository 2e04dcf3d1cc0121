-- ===== src/Balancer/Handled.antt =====
-- loadbalancer.go: in a load balancer that `AddBackend` has filled, every proxy has its own error
-- handler, so that no request is answered by the proxy's default one.
use mathlib.Core.Path.{subst}
use load_balancer_comparison.Base.{
  ℕ, zero, suc, ◌≡◌, ◌≢◌, refl, sym, ap, ◌∙◌, Option, none, some, List, [], ◌∷◌, All, All-mono, In,
  In-All, ◌<◌, ◌⊎◌, inl, inr,
}
use load_balancer_comparison.Backend.{Addr}
use load_balancer_comparison.Pool.{get_pool_summary, next_available_peer}
use load_balancer_comparison.Pool.Choice.{next_available_peer-IsReady}
use load_balancer_comparison.Balancer.{
  System, Request, Writer, Outcome, responded, failed, recorder, Handler, error_handler, answer,
  serve_http, forward, load_balance, http_error, write_header, first_status,
}
use load_balancer_comparison.Balancer.Cases.{
  some_eq, recorded, listed, retried, connected, error_handler_cases, forward_cases,
}
use load_balancer_comparison.Balancer.Writers.{write_header_frame}
use load_balancer_comparison.Balancer.Fixed.{listed-SameFixed, connected-SameFixed}
use load_balancer_comparison.Balancer.Frame.{
  Frame, store-Frame, chosen, chosen-Frame, load_balance-Frame,
}

abbrev pub Distinct : List Addr → Type 0
Distinct [] = Unit
Distinct (p ∷ ps) = All (λ q. p ≢ q) ps × Distinct ps

-- The pool's backends are distinct, have been allocated, and each has the error handler that was made
-- for it.
pub record WellFormed (sys : System) : Type 0 where
  pub allocated : All (λ p. p < sys.store.fresh) sys.pool.backends
  pub distinct : Distinct sys.pool.backends
  pub handled : All (λ p. (sys.store.heap p).error_handler ≡ some p) sys.pool.backends

pub Frame-WellFormed : (sys sys' : System) → Frame sys sys' → WellFormed sys → WellFormed sys'
Frame-WellFormed sys sys' f v = record {
  allocated = subst (All (λ p. p < sys'.store.fresh)) (sym f.backends_same) (
      All-mono (λ p. p < sys.store.fresh) (λ p. p < sys'.store.fresh) sys.pool.backends
        (λ p less. rw f.fixed_same.fresh_same less) v.allocated);
  distinct = subst Distinct (sym f.backends_same) v.distinct;
  handled = subst (All (λ p. (sys'.store.heap p).error_handler ≡ some p)) (sym f.backends_same) (
      All-mono (λ p. (sys.store.heap p).error_handler ≡ some p)
        (λ p. (sys'.store.heap p).error_handler ≡ some p) sys.pool.backends
        (λ p own. ap (λ t. t.2) (f.fixed_same.same p) ∙ own) v.handled);
}

-- A request keeps the load balancer well-formed.
pub load_balance-WellFormed :
    (fuel : ℕ) (w : Writer) (r : Request) (sys sys' : System)
    → WellFormed sys
    → load_balance fuel w r sys ≡ some sys'
    → WellFormed sys'
load_balance-WellFormed fuel w r sys sys' v h =
    Frame-WellFormed sys sys' (load_balance-Frame fuel w r sys sys' h) v

-- The client has been sent a status that a backend has answered, or 503.
abbrev pub Answered : System → System → Type 0
Answered sys sys' =
    (code : ℕ) × (sys'.response ≡ some code)
    × (((k : ℕ) × (p : Addr) × (sys.network k p ≡ responded code)) ⊎ (code ≡ 503))

abbrev pub Handles : Handler → Type 0
Handles h =
    (w : Writer) (r : Request) (sys sys' : System)
    → WellFormed sys
    → sys.response ≡ none
    → h w r sys ≡ some sys'
    → Answered sys sys'

pub write_header-response :
    (w : Writer) (code : ℕ) (sys : System)
    → sys.response ≡ none
    → (write_header w code sys).response ≡ some code
write_header-response w code sys e =
    ap (λ (x : System). x.response) (write_header_frame w code sys)
    ∙ ap (λ r. first_status r code) e

module _ (again : Handler) (handles : Handles again) where
  error_handler-Answered : (p : Addr) → Handles (error_handler again p)
  unfolding http_error
  error_handler-Answered p w r sys sys' v e h = elim (error_handler_cases again p w r sys sys' h) [
    | inl (_, next) ↦
        let tried : System = record sys { store = listed p sys } in
        handles w (retried r) tried sys'
          (Frame-WellFormed sys tried (store-Frame sys (listed p sys) (listed-SameFixed p sys)) v) e
          next
    | inr (_, done) ↦
        let failing : System = record sys { store = recorded p sys.store } in
        subst (Answered sys) (sym done) (503, write_header-response w 503 failing e, inr refl)
  ]

  answer-Answered :
      (k : ℕ) (p : Addr) (o : Outcome) (w : Writer) (r : Request) (sys sys' : System)
      → WellFormed sys
      → sys.network k p ≡ o
      → sys.response ≡ none
      → answer again o (some p) w r sys ≡ some sys'
      → Answered sys sys'
  unfolding answer
  answer-Answered k p (responded code) w r sys sys' v n e h =
      subst (Answered sys) (some_eq h) (code, write_header-response w code sys e, inl (k, p, n))
  answer-Answered k p (failed t) w r sys sys' v n e h = error_handler-Answered p w r sys sys' v e h

  serve_http-Answered :
      (p : Addr) (w : Writer) (r : Request) (sys sys' : System)
      → WellFormed sys
      → In p sys.pool.backends
      → sys.response ≡ none
      → serve_http again p w r sys ≡ some sys'
      → Answered sys sys'
  unfolding serve_http
  serve_http-Answered p w r sys sys' v member e h =
      let own : (sys.store.heap p).error_handler ≡ some p =
        In-All (λ q. (sys.store.heap q).error_handler ≡ some q) sys.pool.backends p v.handled
          member in
      answer-Answered sys.sent p (sys.network sys.sent p) w r (record sys { sent = suc sys.sent })
        sys' (record { allocated = v.allocated; distinct = v.distinct; handled = v.handled }) refl e
        (rw own at h)

  forward-Answered :
      (o : Option Addr) (w : Writer) (r : Request) (sys sys' : System)
      → WellFormed sys
      → ((p : Addr) → o ≡ some p → In p sys.pool.backends)
      → sys.response ≡ none
      → forward again o w r sys ≡ some sys'
      → Answered sys sys'
  unfolding forward http_error
  forward-Answered none w r sys sys' v member e h =
      let summed : System = record sys { store = (get_pool_summary sys.pool sys.store).1 } in
      subst (Answered sys) (some_eq h) (503, write_header-response w 503 summed e, inr refl)
  forward-Answered (some p) w r sys sys' v member e h =
      let (sys'', served, done) = forward_cases again p w r sys sys' h in
      let asked : Frame sys (connected p sys) =
        store-Frame sys (connected p sys).store (connected-SameFixed p sys) in
      subst (Answered sys) (sym done) (
        serve_http-Answered p (recorder p w) r (connected p sys) sys''
          (Frame-WellFormed sys (connected p sys) asked v) (member p refl) e served)

-- When a request's handler returns in a well-formed load balancer, a client that had not been sent a
-- status has been sent one that a backend has answered, or 503.
pub load_balance_answers :
    (fuel : ℕ) (w : Writer) (r : Request) (sys sys' : System)
    → WellFormed sys
    → sys.response ≡ none
    → load_balance fuel w r sys ≡ some sys'
    → Answered sys sys'
unfolding load_balance
load_balance_answers zero w r sys sys' v e h = absurd (cc h)
load_balance_answers (suc fuel) w r sys sys' v e h =
    let f : Frame sys (chosen sys) = chosen-Frame sys in
    forward-Answered (load_balance fuel) (load_balance_answers fuel)
      (next_available_peer sys.pool sys.store).0 w r (chosen sys) sys'
      (Frame-WellFormed sys (chosen sys) f v)
      (λ p picked.
        subst (In p) (sym f.backends_same)
          (next_available_peer-IsReady sys.pool sys.store p picked).0)
      e h
