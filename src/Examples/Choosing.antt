-- ===== src/Examples/Choosing.antt =====
-- Round robin, least connections and the choices of the pool at concrete inputs.
use load_balancer_comparison.Base.{
  All, ℕ, ◌+◌, ◌%◌, ◌^◌, ◌≡◌, ◌⊎◌, refl, inl, inr, true, none, some, [], ◌∷◌, ◌++◌, map, drop, take,
  In, length, get_elem?, arith,
}
use load_balancer_comparison.Backend.{Addr, is_alive}
use load_balancer_comparison.Store.Looks.{IsReady, Eases}
use load_balancer_comparison.Algorithms.{
  round_robin, round_robin_next, get_alive_backends, least_connections_next,
}
use load_balancer_comparison.Algorithms.RoundRobin.{round_robin_next_lem, round_robin_fair, picks}
use load_balancer_comparison.Algorithms.LeastConnections.{FirstLeast, least_connections_next_lem}
use load_balancer_comparison.Algorithms.Sound.{next_backend_sound}
use load_balancer_comparison.Pool.{next_available_peer, next_peer}
use load_balancer_comparison.Pool.Choice.{next_available_peer-IsReady, next_peer-IsReady}
use load_balancer_comparison.Pool.Alternatives.{next_peer_lem}
use load_balancer_comparison.Pool.Answers.{next_available_peer-some}
use load_balancer_comparison.Examples.Fleet.{fleet, store, two_backends, pool, whole}

chosen : (next_available_peer pool store).0 ≡ some 0
unfolding whole
chosen = refl

chosen_by_next_peer : (next_peer pool store).0 ≡ some 0
unfolding whole
chosen_by_next_peer = refl

fleet_alive : get_alive_backends fleet two_backends ≡ 0 ∷ 1 ∷ []
unfolding whole
fleet_alive = refl

round_robin_next_lem_example :
    let alive = get_alive_backends fleet two_backends in
    ((alive ≡ []) × (round_robin_next fleet 7 two_backends ≡ (none, 7)))
    ⊎ ((p : ℕ) × (round_robin_next fleet 7 two_backends ≡ (some p, (7 + 1) % 2 ^ 64))
        × (get_elem? alive (7 % length alive) ≡ some p)
        × In p two_backends
        × (is_alive (fleet p) ≡ true))
round_robin_next_lem_example = round_robin_next_lem fleet 7 two_backends (omega arith)

round_robin_fair_example :
    let alive = get_alive_backends fleet two_backends in
    picks fleet two_backends (length alive) 7
    ≡ map some (drop (7 % length alive) alive ++ take (7 % length alive) alive)
unfolding whole
round_robin_fair_example = round_robin_fair fleet two_backends 7 (omega arith) (omega arith)

least_connections_next_lem_example :
    FirstLeast fleet two_backends (least_connections_next fleet two_backends)
unfolding whole
least_connections_next_lem_example = least_connections_next_lem fleet two_backends (omega arith)

picked_lives : In 0 two_backends × (is_alive (fleet 0) ≡ true)
unfolding whole
picked_lives = next_backend_sound (round_robin 0) fleet two_backends 0 refl

next_available_peer-IsReady_example :
    let s' = (next_available_peer pool store).2 in
    In 0 two_backends × IsReady (s'.heap 0) × Eases store s'
next_available_peer-IsReady_example = next_available_peer-IsReady pool store 0 chosen

by_next_peer :
    let s' = (next_peer pool store).2 in In 0 two_backends × IsReady (s'.heap 0) × Eases store s'
by_next_peer = next_peer-IsReady pool store 0 chosen_by_next_peer

next_peer_lem_example :
    (((next_peer pool store).0 ≡ none) × All (λ q. ¬ IsReady (store.heap q)) two_backends)
    ⊎ ((p : Addr) × ((next_peer pool store).0 ≡ some p)
        × In p two_backends
        × IsReady ((next_peer pool store).2.heap p)
        × Eases store (next_peer pool store).2)
next_peer_lem_example = next_peer_lem pool store (omega arith)

next_available_peer-some_example : (p : ℕ) × ((next_available_peer pool store).0 ≡ some p)
next_available_peer-some_example =
    next_available_peer-some pool store 1 (inr (inl refl)) (refl, refl) (omega arith)
