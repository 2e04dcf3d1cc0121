-- ===== src/Balancer/Cases.antt =====
-- loadbalancer.go: what can be said of the handlers once they have returned.
use load_balancer_comparison.Base.{
  ◌≡◌, sym, true, false, some, ◌⊎◌, inl, inr, Bool-cases, Option-cases,
}
use load_balancer_comparison.Base.Int.{pos, add64, ltb_ℤ}
use load_balancer_comparison.Backend.{Addr, add_connection}
use load_balancer_comparison.Store.{Store, modify, fail, look}
use load_balancer_comparison.Pool.{get_available_backends}
use load_balancer_comparison.Balancer.{
  System, Request, Writer, recorder, Handler, error_handler, serve_http, forward, disconnect,
  get_retry_from_context, http_error,
}

pub some_eq {ℓ} : {A : Type ℓ} {a b : A} → some a ≡ some b → a ≡ b
some_eq h = cc

-- The store when an error has been recorded, and when the alternatives have been listed.
abbrev pub recorded : Addr → Store → Store
recorded p s = (look p (fail p s)).1

abbrev pub listed : Addr → System → Store
listed p sys = (get_available_backends sys.pool (recorded p sys.store)).1

abbrev pub retried : Request → Request
retried r = record r { retry = some (add64 (get_retry_from_context r) (pos 1)) }

pub error_handler_cases :
    (again : Handler) (p : Addr) (w : Writer) (r : Request) (sys sys' : System)
    → error_handler again p w r sys ≡ some sys'
    → ((ltb_ℤ (get_retry_from_context r) sys.config.max_retries ≡ true)
        × (again w (retried r) (record sys { store = listed p sys }) ≡ some sys'))
      ⊎ ((ltb_ℤ (get_retry_from_context r) sys.config.max_retries ≡ false)
          × (sys' ≡ http_error w 503 (record sys { store = recorded p sys.store })))
unfolding error_handler
error_handler_cases again p w r sys sys' h =
    elim (Bool-cases (ltb_ℤ (get_retry_from_context r) sys.config.max_retries)) [
      | inl e ↦ inl (e, rw e at h)
      | inr e ↦ inr (e, sym (some_eq (rw e at h)))
    ]

-- The system in which the chosen peer is asked.
abbrev pub connected : Addr → System → System
connected p sys = record sys { store = (look p (modify add_connection p sys.store)).1 }

pub forward_cases :
    (again : Handler) (p : Addr) (w : Writer) (r : Request) (sys sys' : System)
    → forward again (some p) w r sys ≡ some sys'
    → (sys'' : System) × (serve_http again p (recorder p w) r (connected p sys) ≡ some sys'')
      × (sys' ≡ disconnect p sys'')
unfolding forward
forward_cases again p w r sys sys' h =
    elim (Option-cases (serve_http again p (recorder p w) r (connected p sys))) [
      | inl e ↦ absurd (cc (rw (e, forward) at h))
      | inr (sys'', e) ↦ (sys'', e, sym (some_eq (rw (e, forward) at h)))
    ]
