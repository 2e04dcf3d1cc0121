-- ===== src/Pool/Answers.antt =====
-- serverpool.go: when `NextAvailablePeer` finds somebody.
use mathlib.Core.Path.{subst}
use load_balancer_comparison.Base.{
  ℕ, ◌==◌, ◌^◌, ◌<◌, ◌≡◌, refl, sym, ap, ◌∙◌, inl, inr, true, false, Option, none, some, List, [],
  ◌∷◌, In, All, length, arith,
}
use load_balancer_comparison.Base.Int.{pos, ◌≤ℤ◌}
use load_balancer_comparison.Backend.{Addr, Backend, is_alive}
use load_balancer_comparison.Store.{Store}
use load_balancer_comparison.Store.Looks.{IsReady}
use load_balancer_comparison.Algorithms.{
  Algorithm, round_robin, weighted, least_connections, Heap, weight_at, next_backend,
  get_alive_backends, least_connections_next,
}
use load_balancer_comparison.Algorithms.Alive.{In-keep}
use load_balancer_comparison.Algorithms.RoundRobin.{round_robin_next_lem}
use load_balancer_comparison.Algorithms.LeastConnections.{
  NonNegative, FirstLeast, least_connections_next_lem,
}
use load_balancer_comparison.Algorithms.Weighted.{Distinct, Room, sum}
use load_balancer_comparison.Algorithms.Weighted.Sums.{weighted_next_picks}
use load_balancer_comparison.Pool.{ServerPool, survey, next_available_peer}
use load_balancer_comparison.Pool.Survey.{survey_sound, survey_complete}

-- A state of the algorithm in which it answers for the given backends: a counter below 2 ^ 64, current
-- weights that fit and do not sum below 0, connection counts that are not negative.
abbrev pub IsSteady : Algorithm → Heap → List Addr → Type 0
IsSteady (round_robin current) heap ps = current < 2 ^ 64
IsSteady (weighted weights) heap ps =
    Distinct (get_alive_backends heap ps)
    × Room heap weights (get_alive_backends heap ps)
    × (pos 0 ≤ℤ sum (weight_at weights) (get_alive_backends heap ps))
IsSteady least_connections heap ps = All (NonNegative heap) ps

alive_member :
    (heap : Heap) (ps : List Addr) (q : Addr)
    → In q ps
    → is_alive (heap q) ≡ true
    → In q (get_alive_backends heap ps)
unfolding get_alive_backends
alive_member heap ps q m up = In-keep (λ p. is_alive (heap p)) q ps m up

member_pos : (ps : List Addr) (q : Addr) → In q ps → 0 < length ps
member_pos [] q m = elim m [ ]
member_pos (p ∷ ps) q m = omega arith

false_up : true ≡ false → ⊥
false_up h = cc

pub up_of : (b : Backend) → b.alive ≡ true → is_alive b ≡ true
unfolding is_alive
up_of b h = h

not_empty : (ps : List Addr) (q : Addr) → In q ps → (length ps == 0) ≡ false
not_empty [] q m = elim m [ ]
not_empty (p ∷ ps) q m = ground arith

not-All_down :
    (heap : Heap) (ps : List Addr) (q : Addr)
    → In q ps
    → is_alive (heap q) ≡ true
    → ¬ All (λ p. is_alive (heap p) ≡ false) ps
not-All_down heap [] q m up h = elim m [ ]
not-All_down heap (p ∷ ps) q (inl e) up h =
    false_up (sym (subst (λ r. is_alive (heap r) ≡ true) e up) ∙ h.0)
not-All_down heap (p ∷ ps) q (inr m) up h = not-All_down heap ps q m up h.1

least_finds :
    (heap : Heap) (ps : List Addr) (q : Addr) (o : Option Addr)
    → In q ps
    → is_alive (heap q) ≡ true
    → FirstLeast heap ps o
    → (p : Addr) × (o ≡ some p)
least_finds heap ps q none m up h = absurd (not-All_down heap ps q m up h)
least_finds heap ps q (some p) m up h = (p, refl)

-- An algorithm in such a state picks somebody whenever one of the given backends is alive.
pub next_backend_answers :
    (algorithm : Algorithm) (heap : Heap) (ps : List Addr) (q : Addr)
    → IsSteady algorithm heap ps
    → In q ps
    → is_alive (heap q) ≡ true
    → (p : Addr) × ((next_backend algorithm heap ps).0 ≡ some p)
unfolding next_backend
next_backend_answers (round_robin current) heap ps q steady m up =
    elim (round_robin_next_lem heap current ps steady) [
      | inl (e, _) ↦ absurd (subst (In q) e (alive_member heap ps q m up))
      | inr (p, e, _, _, _) ↦ (p, ap (λ (r : Option Addr × ℕ). r.0) e)
    ]
next_backend_answers (weighted weights) heap ps q steady m up =
    let (p, e, _) =
      weighted_next_picks heap weights ps steady.0 steady.1
        (member_pos _ q (alive_member heap ps q m up)) steady.2 in
    (p, e)
next_backend_answers least_connections heap ps q steady m up =
    least_finds heap ps q (least_connections_next heap ps) m up
      (least_connections_next_lem heap ps steady)

-- If a member of the pool is alive with a closed circuit when the choice begins, and the algorithm is in
-- a state in which it answers, some backend is chosen.
pub next_available_peer-some :
    (pool : ServerPool) (s : Store) (q : Addr)
    → In q pool.backends
    → IsReady (s.heap q)
    → IsSteady pool.algorithm (survey pool.backends s).1.heap (survey pool.backends s).0.0
    → (p : Addr) × ((next_available_peer pool s).0 ≡ some p)
unfolding next_available_peer
next_available_peer-some pool s q m ready steady =
    let ((available, _), s') = survey pool.backends s in
    let found : In q available = survey_complete pool.backends s q m ready in
    let up = (survey_sound pool.backends s q found).1.0 in
    let (p, e) =
      next_backend_answers pool.algorithm s'.heap available q steady found (up_of (s'.heap q) up) in
    (p, rw (not_empty available q found) e)
