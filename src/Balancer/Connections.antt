-- ===== src/Balancer/Connections.antt =====
-- loadbalancer.go: every `AddConnection` of a request is undone by its deferred `RemoveConnection`.
use mathlib.Core.Path.{subst}
use load_balancer_comparison.Base.{
  ==_iff, ℕ, zero, suc, ◌==◌, ◌≡◌, sym, ◌∙◌, Option, none, some, Bool-cases, inl, inr, arith,
}
use load_balancer_comparison.Base.Int.{ℤ, pos, negsuc, InInt64, add64, wrap64, ◌+ℤ◌, wrap64-InInt64}
use load_balancer_comparison.Backend.{Addr, add_connection, remove_connection}
use load_balancer_comparison.Store.{Store, modify}
use load_balancer_comparison.Store.Looks.{look-Eases}
use load_balancer_comparison.Pool.{get_pool_summary, next_available_peer}
use load_balancer_comparison.Pool.Survey.{get_available_backends-Eases, get_pool_summary-Eases}
use load_balancer_comparison.Pool.Choice.{next_available_peer-Eases}
use load_balancer_comparison.Balancer.{
  System, Request, Writer, Outcome, responded, failed, recorder, Handler, error_handler, answer,
  serve_http, forward, load_balance, http_error, write_header,
}
use load_balancer_comparison.Balancer.Cases.{
  some_eq, recorded, listed, retried, connected, error_handler_cases, forward_cases,
}
use load_balancer_comparison.Balancer.Writers.{
  SameConnections, Eases-connections, failed_look-connections, write_header-connections,
}

-- Every connection count is a value of int64.
abbrev pub Fits : Store → Type 0
Fits s = (q : Addr) → InInt64 (s.heap q).connections

pub Fits-same : (s s' : Store) → SameConnections s s' → Fits s → Fits s'
Fits-same s s' e f q = rw (e q) (f q)

pub same_trans : (s t u : Store) → SameConnections s t → SameConnections t u → SameConnections s u
same_trans s t u e f q = f q ∙ e q

-- A connection that is added to a backend and removed again leaves the count as it was.
add_remove : (n : ℤ) → InInt64 n → add64 (add64 n (pos 1)) (negsuc 0) ≡ n
unfolding wrap64 ◌+ℤ◌
add_remove n h = ground arith

add-Fits : (p : Addr) (s : Store) → Fits s → Fits (modify add_connection p s)
unfolding modify add_connection
add-Fits p s f q = elim (Bool-cases (p == q)) [
  | inl e ↦ rw e (wrap64-InInt64 _)
  | inr e ↦ rw e (f q)
]

removed :
    (p : Addr) (s t : Store)
    → Fits s
    → SameConnections (modify add_connection p s) t
    → SameConnections s (modify remove_connection p t)
unfolding modify add_connection remove_connection
removed p s t f e q =
    ground (arith, e q, e p, f q, f p, add_remove (s.heap q).connections (f q), ==_iff p q)

-- A handler that gives every connection back.
abbrev GivesBack : Handler → Type 0
GivesBack h =
    (w : Writer) (r : Request) (sys sys' : System)
    → Fits sys.store
    → h w r sys ≡ some sys'
    → SameConnections sys.store sys'.store

module _ (again : Handler) (back : GivesBack again) where
  error_handler-GivesBack : (p : Addr) → GivesBack (error_handler again p)
  unfolding error_handler http_error
  error_handler-GivesBack p w r sys sys' f h = elim (error_handler_cases again p w r sys sys' h) [
    | inl (_, next) ↦
        let same =
          same_trans sys.store (recorded p sys.store) (listed p sys)
            (failed_look-connections p sys.store)
            (Eases-connections (recorded p sys.store) (listed p sys)
              (get_available_backends-Eases sys.pool (recorded p sys.store))) in
        same_trans sys.store (listed p sys) sys'.store same (
          back w (retried r) (record sys { store = listed p sys }) sys'
            (Fits-same sys.store (listed p sys) same f) next)
    | inr (_, done) ↦
        subst (λ x. SameConnections sys.store x.store) (sym done)
          (let failing : System = record sys { store = recorded p sys.store } in
            same_trans sys.store failing.store (write_header w 503 failing).store
              (failed_look-connections p sys.store) (write_header-connections w 503 failing))
  ]

  answer-GivesBack : (o : Outcome) (handler : Option Addr) → GivesBack (answer again o handler)
  unfolding answer
  answer-GivesBack (responded code) handler w r sys sys' f h =
      subst (λ x. SameConnections sys.store x.store) (some_eq h)
        (write_header-connections w code sys)
  answer-GivesBack (failed e) none w r sys sys' f h =
      subst (λ x. SameConnections sys.store x.store) (some_eq h)
        (write_header-connections w 502 sys)
  answer-GivesBack (failed e) (some p) w r sys sys' f h = error_handler-GivesBack p w r sys sys' f h

  serve_http-GivesBack : (p : Addr) → GivesBack (serve_http again p)
  unfolding serve_http
  serve_http-GivesBack p w r sys sys' f h =
      answer-GivesBack (sys.network sys.sent p) (sys.store.heap p).error_handler w r
        (record sys { sent = suc sys.sent }) sys' f h

  forward-GivesBack : (o : Option Addr) → GivesBack (forward again o)
  unfolding forward http_error
  forward-GivesBack none w r sys sys' f h =
      subst (λ x. SameConnections sys.store x.store) (some_eq h)
        (let summed : System = record sys { store = (get_pool_summary sys.pool sys.store).1 } in
          same_trans sys.store summed.store (write_header w 503 summed).store
            (Eases-connections sys.store summed.store (get_pool_summary-Eases sys.pool sys.store))
            (write_header-connections w 503 summed))
  forward-GivesBack (some p) w r sys sys' f h =
      let (sys'', served, done) = forward_cases again p w r sys sys' h in
      let added : Store = modify add_connection p sys.store in
      let asked : Store = (connected p sys).store in
      let looked = Eases-connections added asked (look-Eases p added) in
      subst (λ x. SameConnections sys.store x.store) (sym done)
        (removed p sys.store sys''.store f (
          same_trans added asked sys''.store looked (
            serve_http-GivesBack p (recorder p w) r (connected p sys) sys''
              (Fits-same added asked looked (add-Fits p sys.store f)) served)))

-- Whatever the backends answer and however often a request is retried, when its handler returns
-- every backend has as many connections as before. The counts before must be values of int64.
pub load_balance-connections :
    (fuel : ℕ) (w : Writer) (r : Request) (sys sys' : System)
    → Fits sys.store
    → load_balance fuel w r sys ≡ some sys'
    → SameConnections sys.store sys'.store
unfolding load_balance
load_balance-connections zero w r sys sys' f h = cc
load_balance-connections (suc fuel) w r sys sys' f h =
    let eases = next_available_peer-Eases sys.pool sys.store in
    let (peer, pool', s') = next_available_peer sys.pool sys.store in
    let same = Eases-connections sys.store s' eases in
    same_trans sys.store s' sys'.store same (
      forward-GivesBack (load_balance fuel) (load_balance-connections fuel) peer w r
        (record sys { pool = pool'; store = s' }) sys' (Fits-same sys.store s' same f) h)
