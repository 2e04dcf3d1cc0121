-- ===== src/Algorithms/Weighted/Sums.antt =====
-- algorithms.go: the sum of the current weights, and why somebody is picked.
use mathlib.Core.Path.{ap₂, subst}
use load_balancer_comparison.Base.{
  ℕ, ◌+◌, ◌≤◌, ◌<◌, ◌≡◌, refl, sym, ap, ◌∙◌, inl, inr, ◌≢◌, some, List, [], ◌∷◌, In, arith,
  Bool-cases, length,
}
use load_balancer_comparison.Base.Int.{
  ltb_ℤ→le, ltb_ℤ→lt, ℤ, pos, ◌+ℤ◌, ◌-ℤ◌, ◌≤ℤ◌, ◌<ℤ◌, int_laws, pos_part, neg_part,
}
use load_balancer_comparison.Backend.{Addr}
use load_balancer_comparison.Algorithms.{
  ltb_ℤ, Heap, Weights, weight_at, weighted_next, get_alive_backends,
}
use load_balancer_comparison.Algorithms.Weighted.{
  Distinct, Room, share, total, raised, sum, share_pos,
}
use load_balancer_comparison.Algorithms.Weighted.Round.{Picked, weighted_next_lem}

pub sum_same :
    (f g : Addr → ℤ) (ps : List Addr) → ((q : Addr) → In q ps → f q ≡ g q) → sum f ps ≡ sum g ps
sum_same f g [] h = refl
sum_same f g (p ∷ ps) h = ap₂ ◌+ℤ◌ (h p (inl refl)) (sum_same f g ps (λ q m. h q (inr m)))

sub_left : (a b t : ℤ) → (a -ℤ t) +ℤ b ≡ (a +ℤ b) -ℤ t
sub_left a b t = omega int_laws

sub_right : (a b t : ℤ) → a +ℤ (b -ℤ t) ≡ (a +ℤ b) -ℤ t
sub_right a b t = omega int_laws

not-In : (p q : Addr) (ps : List Addr) → ¬ In p ps → In q ps → p ≢ q
not-In p q ps h m e = h (subst (λ r. In r ps) (sym e) m)

-- A change at one place of a list without repetitions changes the sum by as much.
sum_change :
    (f g : Addr → ℤ) (t : ℤ) (p : Addr) (ps : List Addr)
    → Distinct ps
    → In p ps
    → ((q : Addr) → In q ps → p ≢ q → f q ≡ g q)
    → f p ≡ g p -ℤ t
    → sum f ps ≡ sum g ps -ℤ t
sum_change f g t p [] d m h e = elim m [ ]
sum_change f g t p (x ∷ ps) d (inl px) h e =
    ap₂ ◌+ℤ◌ (subst (λ r. f r ≡ g r -ℤ t) px e) (
      sum_same f g ps (λ q m. h q (inr m) (not-In p q ps (λ n. d.0 (subst (λ r. In r ps) px n)) m)))
    ∙ sub_left (g x) (sum g ps) t
sum_change f g t p (x ∷ ps) d (inr m) h e =
    ap₂ ◌+ℤ◌ (h x (inl refl) (λ px. d.0 (subst (λ r. In r ps) px m)))
      (sum_change f g t p ps d.1 m (λ q n. h q (inr n)) e)
    ∙ sub_right (g x) (sum g ps) t

add_shares : (w s : ℤ) (n m : ℕ) → (w +ℤ pos n) +ℤ (s +ℤ pos m) ≡ (w +ℤ s) +ℤ pos (n + m)
add_shares w s n m = omega int_laws

sum-raised :
    (heap : Heap) (weights : Weights) (ps : List Addr)
    → sum (raised heap weights) ps ≡ sum (weight_at weights) ps +ℤ pos (total heap ps)
sum-raised heap weights [] = omega int_laws
sum-raised heap weights (p ∷ ps) =
    ap (λ s. raised heap weights p +ℤ s) (sum-raised heap weights ps)
    ∙ add_shares (weight_at weights p) (sum (weight_at weights) ps) (share heap p) (total heap ps)

cancel_total : (s : ℤ) (n : ℕ) → (s +ℤ pos n) -ℤ pos n ≡ s
cancel_total s n = omega int_laws

-- A round that picks a backend keeps the sum of the current weights.
pub Picked-sum :
    (heap : Heap) (weights : Weights) (alive : List Addr) (p : Addr) (weights' : Weights)
    → Distinct alive
    → Picked heap weights alive p weights'
    → sum (weight_at weights') alive ≡ sum (weight_at weights) alive
Picked-sum heap weights alive p weights' d h =
    sum_change (weight_at weights') (raised heap weights) (pos (total heap alive)) p alive d
      h.member h.others h.paid
    ∙ ap (λ s. s -ℤ pos (total heap alive)) (sum-raised heap weights alive)
    ∙ cancel_total (sum (weight_at weights) alive) (total heap alive)

sum_not_pos :
    (f : Addr → ℤ) (ps : List Addr) → ((q : Addr) → In q ps → f q ≤ℤ pos 0) → sum f ps ≤ℤ pos 0
sum_not_pos f [] h = omega arith
sum_not_pos f (p ∷ ps) h = omega (int_laws, h p (inl refl), sum_not_pos f ps (λ q m. h q (inr m)))

pub total_pos : (heap : Heap) (p : Addr) (ps : List Addr) → 1 ≤ total heap (p ∷ ps)
total_pos heap p ps = omega (arith, share_pos heap p)

-- Some raised weight is positive, when the current weights of the live backends do not sum below 0.
not-All_down :
    (heap : Heap) (weights : Weights) (p : Addr) (ps : List Addr)
    → pos 0 ≤ℤ sum (weight_at weights) (p ∷ ps)
    → ¬ ((q : Addr) → In q (p ∷ ps) → raised heap weights q ≤ℤ pos 0)
not-All_down heap weights p ps s h = omega (
  int_laws,
  sum_not_pos (raised heap weights) (p ∷ ps) h,
  ap pos_part (sum-raised heap weights (p ∷ ps)),
  ap neg_part (sum-raised heap weights (p ∷ ps)),
  total_pos heap p ps,
)

pub Picked_pos :
    (heap : Heap) (weights : Weights) (alive : List Addr) (p : Addr) (weights' : Weights)
    → pos 0 ≤ℤ sum (weight_at weights) alive
    → Picked heap weights alive p weights'
    → pos 0 <ℤ raised heap weights p
Picked_pos heap weights [] p weights' s h = elim h.member [ ]
Picked_pos heap weights (x ∷ ps) p weights' s h =
    elim (Bool-cases (ltb_ℤ (pos 0) (raised heap weights p))) [
      | inl e ↦ ltb_ℤ→lt (pos 0) (raised heap weights p) e
      | inr e ↦ absurd (
          not-All_down heap weights x ps s
            (λ q m. omega (arith, h.top q m, ltb_ℤ→le (pos 0) (raised heap weights p) e)))
    ]

-- While the current weights of the live backends do not sum below 0, as they do not from the start on
-- if the live backends stay the same, weighted round robin picks one whenever one is alive.
pub weighted_next_picks :
    (heap : Heap) (weights : Weights) (backends : List Addr)
    → Distinct (get_alive_backends heap backends)
    → Room heap weights (get_alive_backends heap backends)
    → 0 < length (get_alive_backends heap backends)
    → pos 0 ≤ℤ sum (weight_at weights) (get_alive_backends heap backends)
    → let (choice, weights') = weighted_next heap weights backends in
      (p : Addr) × (choice ≡ some p)
      × Picked heap weights (get_alive_backends heap backends) p weights'
weighted_next_picks heap weights backends d room some_alive s =
    elim (weighted_next_lem heap weights backends d room) [
      | inl r ↦ r
      | inr (_, h) ↦ absurd (
          somebody (get_alive_backends heap backends) some_alive s
            (λ q m. omega (arith, h.negative q m)))
    ]
  where
    somebody :
        (alive : List Addr)
        → 0 < length alive
        → pos 0 ≤ℤ sum (weight_at weights) alive
        → ¬ ((q : Addr) → In q alive → raised heap weights q ≤ℤ pos 0)
    somebody [] l s h = elim l [ ]
    somebody (p ∷ ps) l s h = not-All_down heap weights p ps s h
