-- ===== src/Pool/Alternatives.antt =====
-- serverpool.go: `NextPeer` and `findAlternativeBackend` miss no backend that can be sent a request.
use mathlib.Core.Path.{subst}
use load_balancer_comparison.Base.{
  ◌==◌, ◌≡◌, ◌≢◌, refl, ◌⊎◌, inl, inr, true, false, none, some, List, [], ◌∷◌, In, All, All-In,
  Bool-cases, Option-cases, arith,
}
use load_balancer_comparison.Backend.{Addr}
use load_balancer_comparison.Store.{Store, look, is_available}
use load_balancer_comparison.Store.Looks.{
  Eases, Eases-trans, Eases-IsReady, IsReady, look-Eases, is_available-Eases, is_available_ready,
}
use load_balancer_comparison.Pool.{
  ServerPool, is_alternative, find_alternative_backend, check_choice, next_peer,
}
use load_balancer_comparison.Pool.Choice.{is_alternative-Eases, next_peer-IsReady}
use load_balancer_comparison.Pool.Answers.{IsSteady, next_backend_answers, up_of}

is_alternative_ready :
    (p exclude : Addr) (s : Store)
    → p ≢ exclude
    → IsReady (s.heap p)
    → (is_alternative p exclude s).0 ≡ true
unfolding is_alternative
is_alternative_ready p exclude s other ready =
    let apart : (p == exclude) ≡ false = ground (arith, other) in
    rw (apart, is_available_ready p s ready.0 ready.1) refl

find_alternative_backend-some :
    (ps : List Addr) (exclude : Addr) (s : Store) (q : Addr)
    → In q ps
    → q ≢ exclude
    → IsReady (s.heap q)
    → (p : Addr) × ((find_alternative_backend ps exclude s).0 ≡ some p)
unfolding find_alternative_backend
find_alternative_backend-some [] exclude s q m other ready = elim m [ ]
find_alternative_backend-some (p ∷ ps) exclude s q m other ready =
    elim (Bool-cases (is_alternative p exclude s).0) [
      | inl up ↦ (p, rw up refl)
      | inr down ↦ elim m [
        | inl e ↦
            let found : (is_alternative p exclude s).0 ≡ true =
              subst (λ r. (is_alternative r exclude s).0 ≡ true) e
                (is_alternative_ready q exclude s other ready) in
            absurd (cc (found, down))
        | inr n ↦
            let (r, e) =
              find_alternative_backend-some ps exclude (is_alternative p exclude s).1 q n other
                (Eases-IsReady s _ q (is_alternative-Eases p exclude s) ready) in
            (r, rw down e)
      ]
    ]

check_choice-some :
    (backends : List Addr) (p q : Addr) (s : Store)
    → In q backends
    → IsReady (s.heap q)
    → (r : Addr) × ((check_choice backends (some p) s).0 ≡ some r)
unfolding check_choice
check_choice-some backends p q s m ready = elim (Bool-cases (is_available p s).0) [
  | inl here ↦ (p, rw here refl)
  | inr away ↦ elim (Bool-cases (look p (is_available p s).1).0) [
    | inl still_open ↦
        let s2 : Store = (look p (is_available p s).1).1 in
        let apart : q ≢ p = λ e.
          let up = is_available_ready q s ready.0 ready.1 in
          cc (subst (λ r. is_available r s ≡ (true, s)) e up, away) in
        let (r, e) = find_alternative_backend-some backends p s2 q m apart (
          Eases-IsReady s s2 q
            (Eases-trans s _ _ (is_available-Eases p s) (look-Eases p (is_available p s).1))
            ready) in
        (r, rw (away, still_open) e)
    | inr closed ↦ (p, rw (away, closed) refl)
  ]
]

next_peer-some :
    (pool : ServerPool) (s : Store) (q : Addr)
    → IsSteady pool.algorithm s.heap pool.backends
    → In q pool.backends
    → IsReady (s.heap q)
    → (p : Addr) × ((next_peer pool s).0 ≡ some p)
unfolding next_peer
next_peer-some pool s q steady m ready =
    let (p, e) =
      next_backend_answers pool.algorithm s.heap pool.backends q steady m
        (up_of (s.heap q) ready.0) in
    let (r, found) = check_choice-some pool.backends p q s m ready in (r, rw e found)

-- While nothing else changes the backends, and in a state of the algorithm in which it answers,
-- `NextPeer` returns nobody only if no member of the pool was alive with a closed circuit. Otherwise it
-- returns a member that is alive with a closed circuit when it returns, and has changed no backend but
-- by closing open circuits whose timeout since the last error had passed at a reading of the clock
-- that it took.
pub next_peer_lem :
    (pool : ServerPool) (s : Store)
    → IsSteady pool.algorithm s.heap pool.backends
    → (((next_peer pool s).0 ≡ none) × All (λ q. ¬ IsReady (s.heap q)) pool.backends)
      ⊎ ((p : Addr) × ((next_peer pool s).0 ≡ some p)
          × In p pool.backends
          × IsReady ((next_peer pool s).2.heap p)
          × Eases s (next_peer pool s).2)
next_peer_lem pool s steady = elim (Option-cases (next_peer pool s).0) [
  | inl nobody ↦ inl (
    nobody,
    All-In (λ q. ¬ IsReady (s.heap q)) pool.backends
        (λ q m ready. let (p, e) = next_peer-some pool s q steady m ready in cc (e, nobody)),
  )
  | inr (p, e) ↦
      let (member, ready, eases) = next_peer-IsReady pool s p e in inr (p, e, member, ready, eases)
]
