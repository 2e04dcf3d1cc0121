-- ===== src/Algorithms/Weighted/Starvation.antt =====
-- algorithms.go: the current weight of a backend is kept while others leave the list of live ones,
-- so that a backend can stay unpicked although it is the only one alive.
use mathlib.Core.Path.{subst}
use load_balancer_comparison.Base.{
  ℕ, zero, suc, ◌*◌, ◌^◌, ◌≤◌, ◌≡◌, refl, sym, ap, inl, inr, Option, none, List, [], ◌∷◌, In, All,
  arith,
}
use load_balancer_comparison.Base.Int.{
  ℤ, pos, negsuc, ◌+ℤ◌, ◌≤ℤ◌, ◌<ℤ◌, InInt64, int_laws, pos_part, neg_part,
}
use load_balancer_comparison.Backend.{Addr}
use load_balancer_comparison.Algorithms.{
  Heap, Weights, weight_at, weighted_next, get_alive_backends,
}
use load_balancer_comparison.Algorithms.Weighted.{share, raised}
use load_balancer_comparison.Algorithms.Weighted.Round.{Outcome, weighted_next_lem}
use load_balancer_comparison.Algorithms.Weighted.Tally.{rounds}

-- Nobody was picked, and the only live backend has come up by its weight in each call.
abbrev pub Unpicked : Heap → Addr → ℕ → ℕ → List (Option Addr) × Weights → Type 0
Unpicked heap p n k (history, weights) =
    All (λ o. o ≡ none) history × (weight_at weights p +ℤ pos (suc n) ≡ pos (k * share heap p))

at_start : (n s : ℕ) → negsuc n +ℤ pos (suc n) ≡ pos (0 * s)
at_start n s = omega int_laws

still_negative :
    (w : ℤ) (n k s : ℕ) → w +ℤ pos (suc n) ≡ pos (k * s) → suc k * s ≤ n → w +ℤ pos s <ℤ pos 0
still_negative w n k s e h = omega (int_laws, ap pos_part e, ap neg_part e)

negative_fits :
    (w : ℤ) (n k s : ℕ)
    → w +ℤ pos (suc n) ≡ pos (k * s)
    → suc k * s ≤ n
    → n ≤ 2 ^ 62
    → InInt64 (w +ℤ pos s)
negative_fits w n k s e h b = omega (int_laws, ap pos_part e, ap neg_part e)

one_more :
    (w : ℤ) (n k s : ℕ)
    → w +ℤ pos (suc n) ≡ pos (k * s)
    → (w +ℤ pos s) +ℤ pos (suc n) ≡ pos (suc k * s)
one_more w n k s e = omega (int_laws, ap pos_part e, ap neg_part e)

lone_next :
    (heap : Heap) (backends : List Addr) (weights : Weights) (p : Addr)
    → get_alive_backends heap backends ≡ p ∷ []
    → raised heap weights p <ℤ pos 0
    → InInt64 (raised heap weights p)
    → share heap p ≤ 2 ^ 62
    → let (choice, weights') = weighted_next heap weights backends in
      (choice ≡ none) × (weight_at weights' p ≡ raised heap weights p)
lone_next heap backends weights p alive below fits small = elim outcome [
  | inl (q, _, h) ↦ absurd (not_picked q h.member h.nonneg)
  | inr (e, h) ↦ (e, h.kept p (inl refl))
]
  where
    room_at : (q : Addr) → In q (p ∷ []) → InInt64 (raised heap weights q)
    room_at q (inl e) = subst (λ r. InInt64 (raised heap weights r)) (sym e) fits
    room_at q (inr m) = elim m [ ]

    not_picked : (q : Addr) → In q (p ∷ []) → ¬ (pos 0 ≤ℤ raised heap weights q)
    not_picked q (inl e) h =
        let at_p : pos 0 ≤ℤ raised heap weights p =
          subst (λ r. pos 0 ≤ℤ raised heap weights r) e h in
        omega arith
    not_picked q (inr m) h = elim m [ ]

    outcome : Outcome heap weights (p ∷ []) (weighted_next heap weights backends)
    outcome =
        subst (λ ps. Outcome heap weights ps (weighted_next heap weights backends)) alive
          (weighted_next_lem heap weights backends (rw alive ((λ m. m), tt))
            (rw alive (record { each = room_at; all = omega arith })))

-- When a single backend is alive and its current weight is -(n + 1), the next `k` calls pick nobody,
-- for every `k` with k times its weight at most n, where n is at most 2 ^ 62.
pub lone_backend_starves :
    (heap : Heap) (backends : List Addr) (weights : Weights) (p : Addr) (n k : ℕ)
    → get_alive_backends heap backends ≡ p ∷ []
    → weight_at weights p ≡ negsuc n
    → k * share heap p ≤ n
    → n ≤ 2 ^ 62
    → Unpicked heap p n k (rounds heap backends k weights)
lone_backend_starves heap backends weights p n zero alive w h b =
    (tt, rw w (at_start n (share heap p)))
lone_backend_starves heap backends weights p n (suc k) alive w h b =
    let (history, weights1) = rounds heap backends k weights in
    let (none_before, owed) =
      lone_backend_starves heap backends weights p n k alive w (omega arith) b in
    let below = still_negative (weight_at weights1 p) n k (share heap p) owed h in
    let result =
      lone_next heap backends weights1 p alive below (negative_fits _ n k (share heap p) owed h b)
        (omega arith) in
    ((result.0, none_before), rw result.1 (one_more (weight_at weights1 p) n k (share heap p) owed))
