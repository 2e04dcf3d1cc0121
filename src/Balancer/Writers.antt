-- ===== src/Balancer/Writers.antt =====
-- loadbalancer.go: what writing a status does, through every recorder on the way to the client.
use load_balancer_comparison.Base.{
  ℕ, ◌≡◌, refl, sym, ◌∙◌, ◌⊎◌, inl, inr, true, false, List, [], ◌∷◌, In, arith,
}
use load_balancer_comparison.Base.Int.{pos}
use load_balancer_comparison.Backend.{Addr, Backend, record_success, record_error}
use load_balancer_comparison.Store.{Store, modify, fail, look}
use load_balancer_comparison.Store.Looks.{Eases, look-Eases, Eases-field}
use load_balancer_comparison.Balancer.{
  System, Writer, client, recorder, record_status, write_header, first_status, is_success,
}

-- The backends whose recorders a writer passes, innermost last.
abbrev pub recorders : Writer → List Addr
recorders client = []
recorders (recorder p w) = p ∷ recorders w

-- Apart from the backends a write changes only the response, and keeps a status that was sent before.
pub write_header_frame :
    (w : Writer) (code : ℕ) (sys : System)
    → write_header w code sys ≡ record sys {
      store = (write_header w code sys).store;
      response = first_status sys.response code;
    }
unfolding write_header
write_header_frame client code sys = refl
write_header_frame (recorder p w) code sys =
    write_header_frame w code (record sys { store = record_status p code sys.store })

-- A backend whose breaker was reset by a success.
abbrev pub IsReset : Backend → Type 0
IsReset b = (b.consecutive_errors ≡ pos 0) × (b.circuit_open ≡ false)

record_status_resets :
    (p q : Addr) (code : ℕ) (s : Store)
    → is_success code ≡ true
    → (p ≡ q) ⊎ IsReset (s.heap q)
    → IsReset ((record_status p code s).heap q)
unfolding record_status modify record_success
record_status_resets p q code s h r = ground arith

onwards :
    (p : Addr) (w : Writer) (q : Addr) (code : ℕ) (s : Store)
    → is_success code ≡ true
    → In q (p ∷ recorders w) ⊎ IsReset (s.heap q)
    → In q (recorders w) ⊎ IsReset ((record_status p code s).heap q)
onwards p w q code s h (inl (inl e)) = inr (record_status_resets p q code s h (inl (sym e)))
onwards p w q code s h (inl (inr m)) = inl m
onwards p w q code s h (inr r) = inr (record_status_resets p q code s h (inr r))

-- A status of success that is written through a chain of recorders resets the breaker of every
-- backend in the chain, also of those that failed before the last retry.
pub write_header_resets :
    (w : Writer) (q : Addr) (code : ℕ) (sys : System)
    → is_success code ≡ true
    → In q (recorders w) ⊎ IsReset (sys.store.heap q)
    → IsReset ((write_header w code sys).store.heap q)
unfolding write_header
write_header_resets client q code sys h (inl m) = elim m [ ]
write_header_resets client q code sys h (inr r) = r
write_header_resets (recorder p w) q code sys h m =
    write_header_resets w q code (record sys { store = record_status p code sys.store }) h
      (onwards p w q code sys.store h m)

-- The number of connections of every backend is the same.
abbrev pub SameConnections : Store → Store → Type 0
SameConnections s s' = (q : Addr) → (s'.heap q).connections ≡ (s.heap q).connections

pub Eases-connections : (s s' : Store) → Eases s s' → SameConnections s s'
Eases-connections s s' e q = Eases-field (λ b. b.connections) (λ b. refl) s s' q e

fail-connections : (p : Addr) (s : Store) → SameConnections s (fail p s)
unfolding fail record_error
fail-connections p s q = ground arith

success-connections : (p : Addr) (s : Store) → SameConnections s (modify record_success p s)
unfolding modify record_success
success-connections p s q = ground arith

pub failed_look-connections : (p : Addr) (s : Store) → SameConnections s (look p (fail p s)).1
failed_look-connections p s q =
    Eases-connections _ _ (look-Eases p (fail p s)) q ∙ fail-connections p s q

record_status-connections :
    (p : Addr) (code : ℕ) (s : Store) → SameConnections s (record_status p code s)
unfolding record_status
record_status-connections p code s q =
    ground (arith, failed_look-connections p s q, success-connections p s q)

-- Writing a status changes no connection count.
pub write_header-connections :
    (w : Writer) (code : ℕ) (sys : System)
    → SameConnections sys.store (write_header w code sys).store
unfolding write_header
write_header-connections client code sys q = refl
write_header-connections (recorder p w) code sys q =
    write_header-connections w code (record sys { store = record_status p code sys.store }) q
    ∙ record_status-connections p code sys.store q
