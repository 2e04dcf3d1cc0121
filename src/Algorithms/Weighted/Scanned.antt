-- ===== src/Algorithms/Weighted/Scanned.antt =====
-- algorithms.go: the weights after the two loops of weighted round robin.
use mathlib.Core.Path.{subst}
-- algorithms.go: the two loops of weighted round robin.
use load_balancer_comparison.Base.{
  Option-cases, ℕ, ◌+◌, ◌-◌, ◌^◌, ◌==◌, ==_iff, ◌≤◌, ◌≡◌, refl, sym, ap, ◌∙◌, inl, inr, ◌≢◌, none,
  List, [], ◌∷◌, In, arith, Bool-cases, Option-cases,
}
use load_balancer_comparison.Base.Int.{ℤ, pos, ◌+ℤ◌, InInt64, wrap64, wrap64_of_InInt64}
use load_balancer_comparison.Backend.{Addr}
use load_balancer_comparison.Algorithms.{
  Heap, Weights, weight_at, put, Scan, scan, scan_one, init_weights,
}
use load_balancer_comparison.Algorithms.Weighted.{
  Distinct, share, total, raised, effective_weight-share,
}

pub weight_at-put_self : (weights : Weights) (p : Addr) (w : ℤ) → weight_at (put weights p w) p ≡ w
weight_at-put_self weights p w = rw ((==_iff p p).1 refl)

pub weight_at-put_other :
    (weights : Weights) (p q : Addr) (w : ℤ)
    → p ≢ q
    → weight_at (put weights p w) q ≡ weight_at weights q
weight_at-put_other weights p q w h = elim (Bool-cases (p == q)) [
  | inl e ↦ absurd (h ((==_iff p q).0 e))
  | inr e ↦ rw e
]

absent :
    (weights : Weights) (p q : Addr)
    → weights p ≡ none
    → weight_at (put weights p (pos 0)) q ≡ weight_at weights q
absent weights p q e = elim (Bool-cases (p == q)) [
  | inl h ↦ rw (h, ← (==_iff p q).0 h, e)
  | inr h ↦ rw h
]

pub weight_at-init_weights :
    (ps : List Addr) (weights : Weights) (q : Addr)
    → weight_at (init_weights weights ps) q ≡ weight_at weights q
unfolding init_weights
weight_at-init_weights [] weights q = refl
weight_at-init_weights (p ∷ ps) weights q = elim (Option-cases (weights p)) [
  | inl e ↦ rw e (weight_at-init_weights ps (put weights p (pos 0)) q ∙ absent weights p q e)
  | inr (w, e) ↦ rw e (weight_at-init_weights ps weights q)
]

-- The store of weights after one step of the second loop.
scan_one_self :
    (heap : Heap) (p : Addr) (s : Scan)
    → InInt64 (raised heap s.weights p)
    → weight_at (scan_one heap p s).weights p ≡ raised heap s.weights p
unfolding scan_one
scan_one_self heap p s room =
    weight_at-put_self s.weights p _ ∙ rw (effective_weight-share heap p) (wrap64_of_InInt64 _ room)

pub scan_one_other :
    (heap : Heap) (p q : Addr) (s : Scan)
    → p ≢ q
    → weight_at (scan_one heap p s).weights q ≡ weight_at s.weights q
unfolding scan_one
scan_one_other heap p q s h = weight_at-put_other s.weights p q _ h

-- A weight outside the list stays.
pub scan_other :
    (heap : Heap) (ps : List Addr) (s : Scan) (q : Addr)
    → ¬ In q ps
    → weight_at (scan heap ps s).weights q ≡ weight_at s.weights q
unfolding scan
scan_other heap [] s q h = refl
scan_other heap (p ∷ ps) s q h =
    scan_other heap ps (scan_one heap p s) q (λ m. h (inr m))
    ∙ scan_one_other heap p q s (λ e. h (inl (sym e)))

pub not_head : (p q : Addr) (ps : List Addr) → ¬ In p ps → In q ps → p ≢ q
not_head p q ps h m e = h (subst (λ r. In r ps) (sym e) m)

pub still_room :
    (heap : Heap) (p : Addr) (ps : List Addr) (s : Scan)
    → ¬ In p ps
    → ((r : Addr) → In r (p ∷ ps) → InInt64 (raised heap s.weights r))
    → (r : Addr) → In r ps
    → InInt64 (raised heap (scan_one heap p s).weights r)
still_room heap p ps s h room r m =
    subst InInt64
      (ap (λ w. w +ℤ pos (share heap r)) (sym (scan_one_other heap p r s (not_head p r ps h m))))
      (room r (inr m))

-- Each weight of the list is raised once.
pub scan_raises :
    (heap : Heap) (ps : List Addr) (s : Scan) (q : Addr)
    → Distinct ps
    → ((r : Addr) → In r ps → InInt64 (raised heap s.weights r))
    → In q ps
    → weight_at (scan heap ps s).weights q ≡ raised heap s.weights q
unfolding scan
scan_raises heap [] s q d room m = elim m [ ]
scan_raises heap (p ∷ ps) s q d room (inl e) =
    subst (λ r. weight_at (scan heap ps (scan_one heap p s)).weights r ≡ raised heap s.weights r)
      (sym e)
      (scan_other heap ps (scan_one heap p s) p d.0 ∙ scan_one_self heap p s (room p (inl refl)))
scan_raises heap (p ∷ ps) s q d room (inr m) =
    scan_raises heap ps (scan_one heap p s) q d.1 (still_room heap p ps s d.0 room) m
    ∙ ap (λ w. w +ℤ pos (share heap q)) (scan_one_other heap p q s (not_head p q ps d.0 m))

sum_fits : (n m : ℕ) → n + m ≤ 2 ^ 63 - 1 → wrap64 (pos n +ℤ pos m) ≡ pos (n + m)
unfolding wrap64 ◌+ℤ◌
sum_fits n m h = ground arith

scan_one_total :
    (heap : Heap) (p : Addr) (s : Scan) (n : ℕ)
    → s.total_weight ≡ pos n
    → n + share heap p ≤ 2 ^ 63 - 1
    → (scan_one heap p s).total_weight ≡ pos (n + share heap p)
unfolding scan_one
scan_one_total heap p s n e h = rw (e, effective_weight-share heap p) (sum_fits n (share heap p) h)

-- The total of the round.
pub scan_total :
    (heap : Heap) (ps : List Addr) (s : Scan) (n : ℕ)
    → s.total_weight ≡ pos n
    → n + total heap ps ≤ 2 ^ 63 - 1
    → (scan heap ps s).total_weight ≡ pos (n + total heap ps)
unfolding scan
scan_total heap [] s n e h = e ∙ ap pos (omega arith)
scan_total heap (p ∷ ps) s n e h =
    scan_total heap ps (scan_one heap p s) (n + share heap p)
      (scan_one_total heap p s n e (omega arith)) (omega arith)
    ∙ ap pos (omega arith)
