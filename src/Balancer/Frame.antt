-- ===== src/Balancer/Frame.antt =====
-- loadbalancer.go: what a request leaves alone, and the invariant of the load balancer that it keeps.
use mathlib.Core.Path.{subst}
use load_balancer_comparison.Base.{
  ℕ, zero, suc, ◌≡◌, refl, sym, ap, ◌∙◌, Option, none, some, inl, inr, arith,
}
use load_balancer_comparison.Backend.{Addr, remove_connection}
use load_balancer_comparison.Store.{Store, modify}
use load_balancer_comparison.Pool.{ServerPool, get_pool_summary, next_available_peer}
use load_balancer_comparison.Pool.Survey.{get_pool_summary-Eases}
use load_balancer_comparison.Pool.Choice.{next_available_peer-Eases}
use load_balancer_comparison.Balancer.{
  System, Request, Writer, Outcome, responded, failed, recorder, Handler, error_handler, answer,
  serve_http, forward, load_balance, http_error, write_header, disconnect,
}
use load_balancer_comparison.Balancer.Cases.{
  some_eq, recorded, listed, retried, connected, error_handler_cases, forward_cases,
}
use load_balancer_comparison.Balancer.Writers.{write_header_frame}
use load_balancer_comparison.Balancer.Fixed.{
  SameFixed, SameFixed-trans, Eases-SameFixed, remove_connection-SameFixed, recorded-SameFixed,
  listed-SameFixed, connected-SameFixed, write_header-SameFixed,
}

-- What a request leaves alone.
pub record Frame (sys sys' : System) : Type 0 where
  pub config_same : sys'.config ≡ sys.config
  pub backends_same : sys'.pool.backends ≡ sys.pool.backends
  pub network_same : sys'.network ≡ sys.network
  pub fixed_same : SameFixed sys.store sys'.store

pub Frame-trans : (a b c : System) → Frame a b → Frame b c → Frame a c
Frame-trans a b c g h = record {
  config_same = h.config_same ∙ g.config_same;
  backends_same = h.backends_same ∙ g.backends_same;
  network_same = h.network_same ∙ g.network_same;
  fixed_same = SameFixed-trans a.store b.store c.store g.fixed_same h.fixed_same;
}

-- Only the store has changed.
pub store-Frame :
    (sys : System) (s' : Store) → SameFixed sys.store s' → Frame sys (record sys { store = s' })
store-Frame sys s' e = record {
  config_same = refl;
  backends_same = refl;
  network_same = refl;
  fixed_same = e;
}

pub write_header-Frame :
    (w : Writer) (code : ℕ) (sys : System) → Frame sys (write_header w code sys)
write_header-Frame w code sys = record {
  config_same = ap (λ (x : System). x.config) (write_header_frame w code sys);
  backends_same = ap (λ (x : System). x.pool.backends) (write_header_frame w code sys);
  network_same = ap (λ (x : System). x.network) (write_header_frame w code sys);
  fixed_same = write_header-SameFixed w code sys;
}

-- The system when a peer has been chosen.
abbrev pub chosen : System → System
chosen sys =
    let (peer, pool', s') = next_available_peer sys.pool sys.store in
    record sys { pool = pool'; store = s' }

next_available_peer-backends :
    (pool : ServerPool) (s : Store) → (next_available_peer pool s).1.backends ≡ pool.backends
unfolding next_available_peer
next_available_peer-backends pool s = ground arith

pub chosen-Frame : (sys : System) → Frame sys (chosen sys)
chosen-Frame sys = record {
  config_same = refl;
  backends_same = next_available_peer-backends sys.pool sys.store;
  network_same = refl;
  fixed_same =
      Eases-SameFixed sys.store (next_available_peer sys.pool sys.store).2
        (next_available_peer-Eases sys.pool sys.store);
}

-- A handler that leaves these alone.
abbrev Frames : Handler → Type 0
Frames h = (w : Writer) (r : Request) (sys sys' : System) → h w r sys ≡ some sys' → Frame sys sys'

module _ (again : Handler) (frames : Frames again) where
  error_handler-Frame : (p : Addr) → Frames (error_handler again p)
  unfolding http_error
  error_handler-Frame p w r sys sys' h = elim (error_handler_cases again p w r sys sys' h) [
    | inl (_, next) ↦
        let tried : System = record sys { store = listed p sys } in
        Frame-trans sys tried sys' (store-Frame sys (listed p sys) (listed-SameFixed p sys))
          (frames w (retried r) tried sys' next)
    | inr (_, done) ↦
        let failing : System = record sys { store = recorded p sys.store } in
        subst (Frame sys) (sym done) (
          Frame-trans sys failing (write_header w 503 failing)
            (store-Frame sys (recorded p sys.store) (recorded-SameFixed p sys.store))
            (write_header-Frame w 503 failing))
  ]

  answer-Frame : (o : Outcome) (handler : Option Addr) → Frames (answer again o handler)
  unfolding answer
  answer-Frame (responded code) handler w r sys sys' h =
      subst (Frame sys) (some_eq h) (write_header-Frame w code sys)
  answer-Frame (failed e) none w r sys sys' h =
      subst (Frame sys) (some_eq h) (write_header-Frame w 502 sys)
  answer-Frame (failed e) (some p) w r sys sys' h = error_handler-Frame p w r sys sys' h

  serve_http-Frame : (p : Addr) → Frames (serve_http again p)
  unfolding serve_http
  serve_http-Frame p w r sys sys' h =
      let sent : System = record sys { sent = suc sys.sent } in
      let f : Frame sent sys' =
        answer-Frame (sys.network sys.sent p) (sys.store.heap p).error_handler w r sent sys' h in
      record {
        config_same = f.config_same;
        backends_same = f.backends_same;
        network_same = f.network_same;
        fixed_same = f.fixed_same;
      }

  forward-Frame : (o : Option Addr) → Frames (forward again o)
  unfolding forward http_error
  forward-Frame none w r sys sys' h =
      let s' : Store = (get_pool_summary sys.pool sys.store).1 in
      let summed : System = record sys { store = s' } in
      subst (Frame sys) (some_eq h) (
        Frame-trans sys summed (write_header w 503 summed)
          (store-Frame sys s'
            (Eases-SameFixed sys.store s' (get_pool_summary-Eases sys.pool sys.store)))
          (write_header-Frame w 503 summed))
  forward-Frame (some p) w r sys sys' h =
      let (sys'', served, done) = forward_cases again p w r sys sys' h in
      let asked : Frame sys (connected p sys) =
        store-Frame sys (connected p sys).store (connected-SameFixed p sys) in
      subst (Frame sys) (sym done) (
        Frame-trans sys sys'' (disconnect p sys'')
          (Frame-trans sys (connected p sys) sys'' asked
            (serve_http-Frame p (recorder p w) r (connected p sys) sys'' served))
          (store-Frame sys'' (modify remove_connection p sys''.store)
            (remove_connection-SameFixed p sys''.store)))

-- A request leaves the configuration and the members of the pool alone, and of every backend its
-- address, weight, liveness, error handler and the limits of its breaker: only health checks mark
-- backends.
pub load_balance-Frame : (fuel : ℕ) → Frames (load_balance fuel)
unfolding load_balance
load_balance-Frame zero w r sys sys' h = absurd (cc h)
load_balance-Frame (suc fuel) w r sys sys' h =
    Frame-trans sys (chosen sys) sys' (chosen-Frame sys) (
      forward-Frame (load_balance fuel) (load_balance-Frame fuel)
        (next_available_peer sys.pool sys.store).0 w r (chosen sys) sys' h)
