-- ===== src/Balancer/Fixed.antt =====
-- loadbalancer.go: the fields of a backend that no call of a request writes.
use Prim.Native.String.{String}
use native.Mathlib.Decide.{ℕ_discrete}
use load_balancer_comparison.Base.{
  ℕ, ◌≡◌, ◌≢◌, refl, ap, ◌∙◌, Bool, Option, Bool-cases, inl, inr, arith,
}
use load_balancer_comparison.Base.Int.{ℤ}
use load_balancer_comparison.Backend.{
  Addr, Backend, record_success, record_error, add_connection, remove_connection,
}
use load_balancer_comparison.Store.{Store, modify, fail, update}
use load_balancer_comparison.Store.Looks.{Eases-field, Eases, look-Eases}
use load_balancer_comparison.Pool.Survey.{get_available_backends-Eases}
use load_balancer_comparison.Balancer.{
  is_server_error, is_success, System, Writer, client, recorder, write_header, record_status,
}
use load_balancer_comparison.Balancer.Cases.{recorded, listed, connected}

-- The fields that no request writes.
abbrev pub Fixed : Type 0
Fixed = String × Bool × Option Addr × ℤ × ℤ × ℤ

abbrev pub fixed : Backend → Fixed
fixed b = (b.url, b.alive, b.error_handler, b.weight, b.max_consecutive_errors, b.circuit_timeout)

pub record SameFixed (s s' : Store) : Type 0 where
  pub same : (q : Addr) → fixed (s'.heap q) ≡ fixed (s.heap q)
  pub fresh_same : s'.fresh ≡ s.fresh

pub SameFixed-refl : (s : Store) → SameFixed s s
SameFixed-refl s = record { same = λ q. refl; fresh_same = refl }

pub SameFixed-trans : (s t u : Store) → SameFixed s t → SameFixed t u → SameFixed s u
SameFixed-trans s t u g h = record {
  same = λ q. h.same q ∙ g.same q;
  fresh_same = h.fresh_same ∙ g.fresh_same;
}

pub Eases-SameFixed : (s s' : Store) → Eases s s' → SameFixed s s'
Eases-SameFixed s s' e = record {
  same = λ q. Eases-field fixed (λ b. refl) s s' q e;
  fresh_same = e.fresh_same;
}

pub update_at : (heap : Addr → Backend) (p q : Addr) (b : Backend) → p ≡ q → update heap p b q ≡ b
update_at heap p q b h = ground arith

pub update_away :
    (heap : Addr → Backend) (p q : Addr) (b : Backend) → p ≢ q → update heap p b q ≡ heap q
update_away heap p q b h = ground arith

update-fixed :
    (heap : Addr → Backend) (p q : Addr) (b : Backend)
    → fixed b ≡ fixed (heap p)
    → fixed (update heap p b q) ≡ fixed (heap q)
update-fixed heap p q b e = elim (ℕ_discrete p q) [
  | yes h ↦ ap fixed (update_at heap p q b h) ∙ e ∙ ap (λ r. fixed (heap r)) h
  | no h ↦ ap fixed (update_away heap p q b h)
]

modify-SameFixed :
    (f : Backend → Backend)
    → ((b : Backend) → fixed (f b) ≡ fixed b)
    → (p : Addr) (s : Store) → SameFixed s (modify f p s)
unfolding modify
modify-SameFixed f k p s = record {
  same = λ q. update-fixed s.heap p q (f (s.heap p)) (k (s.heap p));
  fresh_same = refl;
}

pub add_connection-SameFixed : (p : Addr) (s : Store) → SameFixed s (modify add_connection p s)
unfolding add_connection
add_connection-SameFixed p s = modify-SameFixed add_connection (λ b. refl) p s

pub remove_connection-SameFixed :
    (p : Addr) (s : Store) → SameFixed s (modify remove_connection p s)
unfolding remove_connection
remove_connection-SameFixed p s = modify-SameFixed remove_connection (λ b. refl) p s

pub record_success-SameFixed : (p : Addr) (s : Store) → SameFixed s (modify record_success p s)
unfolding record_success
record_success-SameFixed p s = modify-SameFixed record_success (λ b. refl) p s

pub fail-SameFixed : (p : Addr) (s : Store) → SameFixed s (fail p s)
unfolding fail record_error
fail-SameFixed p s = record {
  same = λ q. update-fixed s.heap p q (record_error (s.heap p) (s.clock s.reads)) refl;
  fresh_same = refl;
}

pub recorded-SameFixed : (p : Addr) (s : Store) → SameFixed s (recorded p s)
recorded-SameFixed p s =
    SameFixed-trans s (fail p s) (recorded p s) (fail-SameFixed p s)
      (Eases-SameFixed (fail p s) (recorded p s) (look-Eases p (fail p s)))

pub listed-SameFixed : (p : Addr) (sys : System) → SameFixed sys.store (listed p sys)
listed-SameFixed p sys =
    SameFixed-trans sys.store (recorded p sys.store) (listed p sys) (recorded-SameFixed p sys.store)
      (Eases-SameFixed (recorded p sys.store) (listed p sys)
        (get_available_backends-Eases sys.pool (recorded p sys.store)))

pub connected-SameFixed : (p : Addr) (sys : System) → SameFixed sys.store (connected p sys).store
connected-SameFixed p sys =
    let added : Store = modify add_connection p sys.store in
    SameFixed-trans sys.store added (connected p sys).store (add_connection-SameFixed p sys.store)
      (Eases-SameFixed added (connected p sys).store (look-Eases p added))

record_status-SameFixed : (p : Addr) (code : ℕ) (s : Store) → SameFixed s (record_status p code s)
unfolding record_status
record_status-SameFixed p code s = elim (Bool-cases (is_server_error code)) [
  | inl e ↦ rw e (recorded-SameFixed p s)
  | inr e ↦ rw e (elim (Bool-cases (is_success code)) [
    | inl f ↦ rw f (record_success-SameFixed p s)
    | inr f ↦ rw f (SameFixed-refl s)
  ])
]

pub write_header-SameFixed :
    (w : Writer) (code : ℕ) (sys : System) → SameFixed sys.store (write_header w code sys).store
unfolding write_header
write_header-SameFixed client code sys = SameFixed-refl sys.store
write_header-SameFixed (recorder p w) code sys =
    let s' : Store = record_status p code sys.store in
    SameFixed-trans sys.store s' (write_header (recorder p w) code sys).store
      (record_status-SameFixed p code sys.store)
      (write_header-SameFixed w code (record sys { store = s' }))
