-- ===== src/Algorithms/Sound.antt =====
-- algorithms.go: whatever the algorithm, what it picks is one of the given backends, and alive.
use load_balancer_comparison.Base.{
  sym, ℕ, ◌≡◌, refl, ◌⊎◌, inl, inr, true, Option, none, some, List, [], ◌∷◌, length, In, Bool-cases,
  ◌==◌, arith,
}
use load_balancer_comparison.Base.Int.{ℤ}
use load_balancer_comparison.Backend.{Addr, is_alive}
use load_balancer_comparison.Algorithms.{
  get_connections, negsuc, Algorithm, round_robin, weighted, least_connections, Heap, Scan, scan,
  scan_one, settle, first_scan, init_weights, get_alive_backends, round_robin_next, weighted_next,
  least_from, improves, least_connections_next, next_backend,
}
use load_balancer_comparison.Algorithms.Alive.{In-keep_inv}
use load_balancer_comparison.Algorithms.RoundRobin.{In-of_get_elem?}

alive_sound :
    (heap : Heap) (ps : List Addr) (p : Addr)
    → In p (get_alive_backends heap ps)
    → In p ps × (is_alive (heap p) ≡ true)
unfolding get_alive_backends
alive_sound heap ps p h = In-keep_inv (λ q. is_alive (heap q)) p ps h

round_robin_sound :
    (heap : Heap) (current : ℕ) (ps : List Addr) (p : Addr)
    → (round_robin_next heap current ps).0 ≡ some p
    → In p (get_alive_backends heap ps)
unfolding round_robin_next
round_robin_sound heap current ps p h =
    elim (Bool-cases (length (get_alive_backends heap ps) == 0)) [
      | inl e ↦ absurd (cc (rw e at h))
      | inr e ↦ In-of_get_elem? _ _ p (rw e at h)
    ]

pub scan_selected :
    (heap : Heap) (ps : List Addr) (s : Scan) (p : Addr)
    → (scan heap ps s).selected ≡ some p
    → In p ps ⊎ (s.selected ≡ some p)
unfolding scan scan_one
scan_selected heap [] s p h = inr h
scan_selected heap (q ∷ ps) s p h = ground (arith, scan_selected heap ps (scan_one heap q s) p h)

settle_choice : (s : Scan) (o : Option Addr) → (settle s o).0 ≡ o
settle_choice s none = refl
settle_choice s (some p) = refl

weighted_sound :
    (heap : Heap) (weights : Addr → Option ℤ) (ps : List Addr) (p : Addr)
    → (weighted_next heap weights ps).0 ≡ some p
    → In p (get_alive_backends heap ps)
unfolding weighted_next
weighted_sound heap weights ps p h =
    ground (arith, scan_selected heap alive start p, settle_choice final final.selected)
  where
    alive : List Addr
    alive = get_alive_backends heap ps

    start : Scan
    start = first_scan (init_weights weights alive)

    final : Scan
    final = scan heap alive start

improves_alive :
    (heap : Heap) (q : Addr) (n : ℤ) → improves heap q n ≡ true → is_alive (heap q) ≡ true
unfolding improves
improves_alive heap q n e = ground arith

least_sound :
    (heap : Heap) (ps : List Addr) (n : ℤ) (o : Option Addr) (p : Addr)
    → least_from heap ps n o ≡ some p
    → (In p ps × (is_alive (heap p) ≡ true)) ⊎ (o ≡ some p)
unfolding least_from
least_sound heap [] n o p h = inr h
least_sound heap (q ∷ ps) n o p h = elim (Bool-cases (improves heap q n)) [
  | inl e ↦ elim (least_sound heap ps (get_connections (heap q)) (some q) p (rw e at h)) [
    | inl r ↦ inl (inr r.0, r.1)
    | inr same ↦ let pq : q ≡ p = cc in inl (inl (sym pq), rw (← pq) (improves_alive heap q n e))
  ]
  | inr e ↦ elim (least_sound heap ps n o p (rw e at h)) [
    | inl r ↦ inl (inr r.0, r.1)
    | inr same ↦ inr same
  ]
]

-- A backend that `NextBackend` returns is in the list that it was given, and alive.
pub next_backend_sound :
    (algorithm : Algorithm) (heap : Heap) (ps : List Addr) (p : Addr)
    → (next_backend algorithm heap ps).0 ≡ some p
    → In p ps × (is_alive (heap p) ≡ true)
unfolding next_backend least_connections_next
next_backend_sound (round_robin current) heap ps p h =
    alive_sound heap ps p (round_robin_sound heap current ps p h)
next_backend_sound (weighted weights) heap ps p h =
    alive_sound heap ps p (weighted_sound heap weights ps p h)
next_backend_sound least_connections heap ps p h =
    ground (arith, least_sound heap ps (negsuc 0) none p h)
