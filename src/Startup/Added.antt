-- ===== src/Startup/Added.antt =====
-- main.go: the backend that one turn of the loop of `main` adds.
use Prim.Native.String.{String}
use load_balancer_comparison.Balancer.Connections.{Fits}
use load_balancer_comparison.Base.{
  Bool-cases, ◌*◌, suc, ◌==◌, ◌≡◌, ◌≢◌, refl, ap, ◌∙◌, true, false, some, List, [], ◌∷◌, ◌++◌, All,
  All-mono, All-append, ◌<◌, inl, inr, arith,
}
use load_balancer_comparison.Base.Int.{ℤ, pos}
use load_balancer_comparison.Backend.{Addr, Backend, second}
use load_balancer_comparison.Store.{update}
use load_balancer_comparison.Balancer.{System}
use load_balancer_comparison.Balancer.Fixed.{update_at, update_away}
use load_balancer_comparison.Balancer.Handled.{WellFormed, Distinct}

-- A backend that has just been added.
abbrev pub added_backend : Addr → String → ℤ → Backend
added_backend p url weight = record {
  url = url;
  alive = true;
  error_handler = some p;
  weight = weight;
  connections = pos 0;
  consecutive_errors = pos 0;
  last_error_time = 0;
  circuit_open = false;
  max_consecutive_errors = pos 10;
  circuit_timeout = pos (30 * second);
}

abbrev pub added : System → String → ℤ → System
added sys url weight =
    let p = sys.store.fresh in
    record sys {
      store = record sys.store {
        heap = update sys.store.heap p (added_backend p url weight);
        fresh = suc p;
      };
      pool = record sys.pool { backends = sys.pool.backends ++ p ∷ [] };
    }

Distinct-append :
    (ps : List Addr) (r : Addr) → All (λ p. p < r) ps → Distinct ps → Distinct (ps ++ r ∷ [])
Distinct-append [] r less d = (tt, tt)
Distinct-append (p ∷ ps) r less d = (
  All-append (λ q. p ≢ q) ps (r ∷ []) d.0 (omega (arith, less.0), tt),
  Distinct-append ps r less.1 d.1,
)

handlers_kept :
    (heap : Addr → Backend) (r : Addr) (b : Backend) (ps : List Addr)
    → All (λ p. p < r) ps
    → All (λ p. (heap p).error_handler ≡ some p) ps
    → All (λ p. (update heap r b p).error_handler ≡ some p) ps
handlers_kept heap r b [] less own = tt
handlers_kept heap r b (p ∷ ps) less own = (
  ap (λ (x : Backend). x.error_handler) (update_away heap r p b (omega (arith, less.0))) ∙ own.0,
  handlers_kept heap r b ps less.1 own.1,
)

pub added-WellFormed :
    (sys : System) (url : String) (weight : ℤ) → WellFormed sys → WellFormed (added sys url weight)
added-WellFormed sys url weight v =
    let r : Addr = sys.store.fresh in
    let b : Backend = added_backend r url weight in
    record {
      allocated =
          All-append (λ p. p < suc r) sys.pool.backends (r ∷ [])
            (All-mono (λ p. p < r) (λ p. p < suc r) sys.pool.backends (λ p less. omega arith)
              v.allocated)
            (omega arith, tt);
      distinct = Distinct-append sys.pool.backends r v.allocated v.distinct;
      handled =
          All-append (λ p. (update sys.store.heap r b p).error_handler ≡ some p) sys.pool.backends
            (r ∷ []) (handlers_kept sys.store.heap r b sys.pool.backends v.allocated v.handled)
            (ap (λ (x : Backend). x.error_handler) (update_at sys.store.heap r r b refl), tt);
    }

pub added-Fits :
    (sys : System) (url : String) (weight : ℤ) → Fits sys.store → Fits (added sys url weight).store
added-Fits sys url weight f q = elim (Bool-cases (sys.store.fresh == q)) [
  | inl e ↦ rw e (omega arith)
  | inr e ↦ rw e (f q)
]
