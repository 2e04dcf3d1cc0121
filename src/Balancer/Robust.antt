-- ===== src/Balancer/Robust.antt =====
-- backend.go, serverpool.go: a pool whose circuits stay closed while a request is retried.
use mathlib.Core.Path.{subst}
use native.Mathlib.Decide.{ℕ_discrete}
use load_balancer_comparison.Base.{
  ◌==◌, ℕ, suc, ◌+◌, ◌-◌, ◌%◌, ◌^◌, ◌<◌, ◌≤◌, ◌≡◌, refl, ap, ◌∙◌, sym, inl, inr, true, false, some,
  List, [], ◌∷◌, length, get_elem?, All, All-mono, arith,
}
use load_balancer_comparison.Base.Int.{pos, pos_part, ◌≤ℤ◌, wrap64, ◌+ℤ◌}
use load_balancer_comparison.Backend.{
  Addr, Backend, record_error, remove_connection, record_success, add_connection, remove_connection,
  record_success, is_alive,
}
use load_balancer_comparison.Store.{Store, modify, fail, update}
use load_balancer_comparison.Store.Looks.{Eases, IsReady, ready_Eases, is_available_ready}
use load_balancer_comparison.Algorithms.{
  round_robin_next, round_robin, get_alive_backends, next_backend,
}
use load_balancer_comparison.Algorithms.Alive.{keep-eq_of_All}
use load_balancer_comparison.Algorithms.RoundRobin.{round_robin_next_lem}
use load_balancer_comparison.Balancer.Fixed.{update_at, update_away}
use load_balancer_comparison.Pool.{ServerPool, survey, next_available_peer}

-- A backend that is alive, has its own error handler, and whose circuit is closed and stays closed for
-- `n` further errors.
pub record Robust (n : ℕ) (p : Addr) (b : Backend) : Type 0 where
  pub up : b.alive ≡ true
  pub closed : b.circuit_open ≡ false
  pub own : b.error_handler ≡ some p
  pub counted : pos 0 ≤ℤ b.consecutive_errors
  pub room : pos_part b.consecutive_errors + n < pos_part b.max_consecutive_errors
  pub fits : b.max_consecutive_errors ≤ℤ pos (2 ^ 63 - 1)

Robust-less : (m n : ℕ) (p : Addr) (b : Backend) → n ≤ m → Robust m p b → Robust n p b
Robust-less m n p b h r = record {
  up = r.up;
  closed = r.closed;
  own = r.own;
  counted = r.counted;
  room = omega (arith, r.room);
  fits = r.fits;
}

record_error-Robust :
    (n now : ℕ) (p : Addr) (b : Backend) → Robust (suc n) p b → Robust n p (record_error b now)
unfolding record_error wrap64 ◌+ℤ◌
record_error-Robust n now p b r = record {
  up = r.up;
  closed = ground (arith, r.closed, r.counted, r.room, r.fits);
  own = r.own;
  counted = ground (arith, r.counted, r.room, r.fits);
  room = ground (arith, r.counted, r.room, r.fits);
  fits = r.fits;
}

-- All of them are.
abbrev pub AllRobust : ℕ → Store → List Addr → Type 0
AllRobust n s ps = All (λ p. Robust n p (s.heap p)) ps

pub AllRobust-less :
    (m n : ℕ) (s : Store) (ps : List Addr) → n ≤ m → AllRobust m s ps → AllRobust n s ps
AllRobust-less m n s ps h =
    All-mono (λ p. Robust m p (s.heap p)) (λ p. Robust n p (s.heap p)) ps
      (λ p. Robust-less m n p (s.heap p) h)

pub Eases-AllRobust :
    (n : ℕ) (s s' : Store) (ps : List Addr) → Eases s s' → AllRobust n s ps → AllRobust n s' ps
Eases-AllRobust n s s' ps e =
    All-mono (λ p. Robust n p (s.heap p)) (λ p. Robust n p (s'.heap p)) ps
      (λ p r. subst (Robust n p) (sym (ready_Eases s s' p e (r.up, r.closed))) r)

pub update-Robust :
    (n : ℕ) (heap : Addr → Backend) (p q : Addr) (b : Backend)
    → Robust n q (heap q)
    → (p ≡ q → Robust n q b)
    → Robust n q (update heap p b q)
update-Robust n heap p q b r new = elim (ℕ_discrete p q) [
  | yes h ↦ subst (Robust n q) (sym (update_at heap p q b h)) (new h)
  | no h ↦ subst (Robust n q) (sym (update_away heap p q b h)) r
]

pub add_connection-AllRobust :
    (n : ℕ) (p : Addr) (s : Store) (ps : List Addr)
    → AllRobust n s ps
    → AllRobust n (modify add_connection p s) ps
unfolding modify add_connection
add_connection-AllRobust n p s ps =
    All-mono (λ q. Robust n q (s.heap q)) (λ q. Robust n q ((modify add_connection p s).heap q)) ps
      (λ q r. update-Robust n s.heap p q (add_connection (s.heap p)) r (λ e.
        subst (λ x. Robust n q (add_connection (s.heap x))) (sym e)
          (record {
            up = r.up;
            closed = r.closed;
            own = r.own;
            counted = r.counted;
            room = r.room;
            fits = r.fits;
          })))

pub fail-AllRobust :
    (n : ℕ) (p : Addr) (s : Store) (ps : List Addr)
    → AllRobust (suc n) s ps
    → AllRobust n (fail p s) ps
unfolding fail
fail-AllRobust n p s ps =
    All-mono (λ q. Robust (suc n) q (s.heap q)) (λ q. Robust n q ((fail p s).heap q)) ps
      (λ q r.
        update-Robust n s.heap p q (record_error (s.heap p) (s.clock s.reads))
          (Robust-less (suc n) n q (s.heap q) (omega arith) r)
          (λ e.
            subst (λ x. Robust n q (record_error (s.heap x) (s.clock s.reads))) (sym e)
              (record_error-Robust n (s.clock s.reads) q (s.heap q) r)))

pub remove_connection-AllRobust :
    (n : ℕ) (p : Addr) (s : Store) (ps : List Addr)
    → AllRobust n s ps
    → AllRobust n (modify remove_connection p s) ps
unfolding modify remove_connection
remove_connection-AllRobust n p s ps =
    All-mono (λ q. Robust n q (s.heap q)) (λ q. Robust n q ((modify remove_connection p s).heap q))
      ps
      (λ q r. update-Robust n s.heap p q (remove_connection (s.heap p)) r (λ e.
        subst (λ x. Robust n q (remove_connection (s.heap x))) (sym e)
          (record {
            up = r.up;
            closed = r.closed;
            own = r.own;
            counted = r.counted;
            room = r.room;
            fits = r.fits;
          })))

pub record_success-AllRobust :
    (n : ℕ) (p : Addr) (s : Store) (ps : List Addr)
    → AllRobust n s ps
    → AllRobust n (modify record_success p s) ps
unfolding modify record_success
record_success-AllRobust n p s ps =
    All-mono (λ q. Robust n q (s.heap q)) (λ q. Robust n q ((modify record_success p s).heap q)) ps
      (λ q r. update-Robust n s.heap p q (record_success (s.heap p)) r (λ e.
        subst (λ x. Robust n q (record_success (s.heap x))) (sym e)
          (record {
            up = r.up;
            closed = refl;
            own = r.own;
            counted = omega arith;
            room = omega (arith, r.room);
            fits = r.fits;
          })))

-- The survey of a pool of ready backends finds them all, and changes nothing.
survey_ready :
    (ps : List Addr) (s : Store) → All (λ p. IsReady (s.heap p)) ps → survey ps s ≡ ((ps, []), s)
unfolding survey
survey_ready [] s h = refl
survey_ready (p ∷ ps) s h = rw (is_available_ready p s h.0.0 h.0.1, survey_ready ps s h.1) refl

peer_now :
    (c : ℕ) (pool : ServerPool) (s : Store) (p : Addr)
    → survey pool.backends s ≡ ((pool.backends, []), s)
    → pool.algorithm ≡ round_robin c
    → 0 < length pool.backends
    → round_robin_next s.heap c pool.backends ≡ (some p, (c + 1) % 2 ^ 64)
    → next_available_peer pool s
      ≡ (some p, record pool { algorithm = round_robin ((c + 1) % 2 ^ 64) }, s)
unfolding next_available_peer next_backend
peer_now c pool s p all e live picked =
    let some_left : (length pool.backends == 0) ≡ false = ground arith in
    rw (all, e, picked, some_left) refl

-- The peer is the one at the counter, and the counter moves on.
pub next_available_peer-Robust :
    (n c : ℕ) (pool : ServerPool) (s : Store)
    → pool.algorithm ≡ round_robin c
    → c < 2 ^ 64
    → 0 < length pool.backends
    → AllRobust n s pool.backends
    → (p : Addr) × (next_available_peer pool s
        ≡ (some p, record pool { algorithm = round_robin ((c + 1) % 2 ^ 64) }, s))
      × (get_elem? pool.backends (c % length pool.backends) ≡ some p)
unfolding get_alive_backends is_alive
next_available_peer-Robust n c pool s e h live robust =
    let ready : All (λ p. IsReady (s.heap p)) pool.backends =
      All-mono (λ p. Robust n p (s.heap p)) (λ p. IsReady (s.heap p)) pool.backends
        (λ p r. (r.up, r.closed)) robust in
    let same : get_alive_backends s.heap pool.backends ≡ pool.backends =
      keep-eq_of_All (λ p. (s.heap p).alive) pool.backends
        (All-mono (λ p. IsReady (s.heap p)) (λ p. (s.heap p).alive ≡ true) pool.backends
          (λ p r. r.0) ready) in
    elim (round_robin_next_lem s.heap c pool.backends h) [
      | inl (empty, _) ↦ absurd (omega (arith, ap length (sym same ∙ empty), live))
      | inr (p, picked, at, _, _) ↦ (
        p,
        peer_now c pool s p (survey_ready pool.backends s ready) e live picked,
        subst (λ ps. get_elem? ps (c % length ps) ≡ some p) same at,
      )
    ]
