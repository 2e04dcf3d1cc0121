-- ===== src/Pool/Choice.antt =====
-- serverpool.go: whom `NextAvailablePeer`, `NextPeer` and `findAlternativeBackend` return.
use mathlib.Core.Path.{subst}
use load_balancer_comparison.Base.{
  ◌≢◌, ◌==◌, ◌≡◌, refl, inl, inr, true, Option, none, some, List, [], ◌∷◌, In, Bool-cases,
  Option-cases, ◌∙◌, arith,
}
use load_balancer_comparison.Backend.{Addr, Backend, is_alive}
use load_balancer_comparison.Store.{Store, look, is_available}
use load_balancer_comparison.Store.Looks.{
  Eases-alive, look-closed, Eases, Eases-refl, Eases-trans, IsReady, look-Eases, is_available-Eases,
  is_available_up,
}
use load_balancer_comparison.Algorithms.{next_backend}
use load_balancer_comparison.Algorithms.Sound.{next_backend_sound}
use load_balancer_comparison.Pool.{
  is_alternative, ServerPool, survey, next_available_peer, find_alternative_backend, next_peer,
  check_choice,
}
use load_balancer_comparison.Pool.Survey.{survey-Eases, survey_sound}

next_available_peer_store :
    (pool : ServerPool) (s : Store) → (next_available_peer pool s).2 ≡ (survey pool.backends s).1
unfolding next_available_peer
next_available_peer_store pool s = ground arith

next_available_peer_choice :
    (pool : ServerPool) (s : Store) (p : Addr)
    → (next_available_peer pool s).0 ≡ some p
    → let ((available, _), s') = survey pool.backends s in
      (next_backend pool.algorithm s'.heap available).0 ≡ some p
unfolding next_available_peer
next_available_peer_choice pool s p h = ground arith

pub next_available_peer-Eases :
    (pool : ServerPool) (s : Store) → Eases s (next_available_peer pool s).2
next_available_peer-Eases pool s =
    rw (next_available_peer_store pool s) (survey-Eases pool.backends s)

-- A request is routed to a member of the pool that is alive and whose circuit is closed when the
-- choice is made. The choice changes no backend but by closing open circuits whose timeout since the
-- last error had passed at a reading of the clock that the choice itself took.
pub next_available_peer-IsReady :
    (pool : ServerPool) (s : Store) (p : Addr)
    → (next_available_peer pool s).0 ≡ some p
    → let s' = (next_available_peer pool s).2 in
      In p pool.backends × IsReady (s'.heap p) × Eases s s'
next_available_peer-IsReady pool s p h =
    let ((available, _), s') = survey pool.backends s in
    let (picked, _) =
      next_backend_sound pool.algorithm s'.heap available p
        (next_available_peer_choice pool s p h) in
    let (member, ready) = survey_sound pool.backends s p picked in
    rw (next_available_peer_store pool s) (member, ready, survey-Eases pool.backends s)

pub is_alternative-Eases : (p exclude : Addr) (s : Store) → Eases s (is_alternative p exclude s).1
unfolding is_alternative
is_alternative-Eases p exclude s = elim (Bool-cases (p == exclude)) [
  | inl e ↦ rw e (Eases-refl s)
  | inr e ↦ rw e (is_available-Eases p s)
]

is_alternative_up :
    (p exclude : Addr) (s : Store)
    → (is_alternative p exclude s).0 ≡ true
    → (p ≢ exclude) × IsReady ((is_alternative p exclude s).1.heap p)
unfolding is_alternative
is_alternative_up p exclude s h = elim (Bool-cases (p == exclude)) [
  | inl e ↦ absurd (cc (rw e at h))
  | inr e ↦ (λ same. ground (arith, same), rw e (is_available_up p s (rw e at h)))
]

-- The alternative to a backend is another member of the pool that is alive and whose circuit is
-- closed when it is found.
pub find_alternative_backend-IsReady :
    (ps : List Addr) (exclude : Addr) (s : Store)
    → let (choice, s') = find_alternative_backend ps exclude s in
      Eases s s' × ((p : Addr) → choice ≡ some p → In p ps × (p ≢ exclude) × IsReady (s'.heap p))
unfolding find_alternative_backend
find_alternative_backend-IsReady [] exclude s = (Eases-refl s, λ p e. cc)
find_alternative_backend-IsReady (q ∷ ps) exclude s =
    elim (Bool-cases (is_alternative q exclude s).0) [
      | inl up ↦ rw up (
        is_alternative-Eases q exclude s,
        λ p e.
            let qp : q ≡ p = cc in
            subst
              (λ r. In r (q ∷ ps) × (r ≢ exclude) × IsReady ((is_alternative q exclude s).1.heap r))
              qp
              (
                inl refl,
                (is_alternative_up q exclude s up).0,
                (is_alternative_up q exclude s up).1,
              ),
      )
      | inr down ↦
          let (eases, found) =
            find_alternative_backend-IsReady ps exclude (is_alternative q exclude s).1 in
          rw down (
            Eases-trans s _ _ (is_alternative-Eases q exclude s) eases,
            λ p e. (inr (found p e).0, (found p e).1, (found p e).2),
          )
    ]

-- The backend that the algorithm has chosen, or its replacement.
abbrev Checked : List Addr → Store → Option Addr × Store → Type 0
Checked backends s r =
    Eases s r.1 × ((q : Addr) → r.0 ≡ some q → In q backends × IsReady (r.1.heap q))

check_choice_ready :
    (backends : List Addr) (p : Addr) (s : Store)
    → In p backends
    → (s.heap p).alive ≡ true
    → Checked backends s (check_choice backends (some p) s)
unfolding check_choice
check_choice_ready backends p s member up = elim (Bool-cases (is_available p s).0) [
  | inl here ↦ rw here (
    is_available-Eases p s,
    λ q e.
        let pq : p ≡ q = cc in
        subst (λ r. In r backends × IsReady ((is_available p s).1.heap r)) pq
          (member, is_available_up p s here),
  )
  | inr away ↦ elim (Bool-cases (look p (is_available p s).1).0) [
    | inl still_open ↦
        let (eases, found) =
          find_alternative_backend-IsReady backends p (look p (is_available p s).1).1 in
        rw (away, still_open)
          (Eases-trans s _ _ (looked_twice p s) eases, λ q e. ((found q e).0, (found q e).2))
    | inr closed ↦
        rw (away, closed)
          (
            looked_twice p s,
            λ q e.
                let pq : p ≡ q = cc in
                subst (λ r. In r backends × IsReady ((look p (is_available p s).1).1.heap r)) pq
                  (
                    member,
                    (
                      Eases-alive s _ p (looked_twice p s) ∙ up,
                      look-closed p (is_available p s).1 ∙ closed,
                    ),
                  ),
          )
  ]
]
  where
    looked_twice : (p : Addr) (s : Store) → Eases s (look p (is_available p s).1).1
    looked_twice p s =
        Eases-trans s _ _ (is_available-Eases p s) (look-Eases p (is_available p s).1)

no_choice :
    (backends : List Addr) (s : Store) (p : Addr) → (check_choice backends none s).0 ≡ some p → ⊥
unfolding check_choice
no_choice backends s p h = cc

alive_of : (b : Backend) → is_alive b ≡ true → b.alive ≡ true
unfolding is_alive
alive_of b h = h

-- `NextPeer` too returns only members of the pool that are alive and have a closed circuit when it
-- returns: its warning about a backend that is down is never followed by such a backend.
pub next_peer-IsReady :
    (pool : ServerPool) (s : Store) (p : Addr)
    → (next_peer pool s).0 ≡ some p
    → In p pool.backends × IsReady ((next_peer pool s).2.heap p) × Eases s (next_peer pool s).2
unfolding next_peer
next_peer-IsReady pool s p h =
    elim (Option-cases (next_backend pool.algorithm s.heap pool.backends).0) [
      | inl e ↦ absurd (no_choice pool.backends s p (rw e at h))
      | inr (q, e) ↦
          let (member, up) = next_backend_sound pool.algorithm s.heap pool.backends q e in
          let (eases, found) =
            check_choice_ready pool.backends q s member (alive_of (s.heap q) up) in
          let (inside, ready) = found p (rw e at h) in rw e (inside, ready, eases)
    ]
