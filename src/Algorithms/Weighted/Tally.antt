-- ===== src/Algorithms/Weighted/Tally.antt =====
-- algorithms.go: how often a backend is picked in calls in a row, against its weight.
use mathlib.Core.Path.{ap₂, subst}
use load_balancer_comparison.Base.{
  ℕ, zero, suc, ◌+◌, ◌-◌, ◌*◌, ◌^◌, ◌==◌, ==_iff, ◌≤◌, ◌<◌, ◌≡◌, refl, ap, inl, inr, ◌≢◌, Option,
  none, some, List, [], ◌∷◌, In, if◌then◌else◌, arith,
}
use load_balancer_comparison.Base.Int.{
  ℤ, pos, ◌+ℤ◌, ◌-ℤ◌, ◌<ℤ◌, InInt64, int_laws, pos_part, neg_part,
}
use load_balancer_comparison.Backend.{Addr}
use load_balancer_comparison.Algorithms.{Heap, Weights, weight_at, weighted_next}
use load_balancer_comparison.Algorithms.Weighted.{Distinct, Room, share, total, sum}

-- Calls in a row, with the backends as they are: the picks, the newest first, and the weights.
abbrev pub rounds : Heap → List Addr → ℕ → Weights → List (Option Addr) × Weights
rounds heap backends zero weights = ([], weights)
rounds heap backends (suc k) weights =
    let (history, weights1) = rounds heap backends k weights in
    let (choice, weights2) = weighted_next heap weights1 backends in (choice ∷ history, weights2)

abbrev pub picked_times : Addr → List (Option Addr) → ℕ
picked_times q [] = 0
picked_times q (none ∷ history) = picked_times q history
picked_times q (some p ∷ history) =
    if p == q then suc (picked_times q history) else picked_times q history

abbrev pub picked_among : List Addr → List (Option Addr) → ℕ
picked_among [] history = 0
picked_among (q ∷ qs) history = picked_times q history + picked_among qs history

-- What holds after `k` rounds from current weights of 0.
pub record Balanced (heap : Heap) (alive : List Addr) (k : ℕ) (history : List (Option Addr))
    (weights : Weights) : Type 0 where
  pub owed :
      (q : Addr)
      → In q alive
      → weight_at weights q +ℤ pos (total heap alive * picked_times q history)
        ≡ pos (k * share heap q)
  pub above :
      (q : Addr)
      → In q alive
      → total heap alive * picked_times q history < k * share heap q + total heap alive
  pub zero_sum : sum (weight_at weights) alive ≡ pos 0
  pub spent : picked_among alive history ≡ k

share-le-total : (heap : Heap) (q : Addr) (ps : List Addr) → In q ps → share heap q ≤ total heap ps
share-le-total heap q [] m = elim m [ ]
share-le-total heap q (p ∷ ps) (inl e) = rw e (omega arith)
share-le-total heap q (p ∷ ps) (inr m) = omega (arith, share-le-total heap q ps m)

pub mul_mono : (k s t : ℕ) → s ≤ t → k * s ≤ k * t
mul_mono k s t h = grind arith

owed_fits :
    (w : ℤ) (t c k s : ℕ)
    → w +ℤ pos (t * c) ≡ pos (k * s)
    → t * c < k * s + t
    → s ≤ t
    → suc k * t ≤ 2 ^ 63 - 1
    → InInt64 (w +ℤ pos s)
owed_fits w t c k s e a h b = omega (int_laws, ap pos_part e, ap neg_part e, mul_mono k s t h)

pub Balanced-Room :
    (heap : Heap) (alive : List Addr) (k : ℕ) (history : List (Option Addr)) (weights : Weights)
    → suc k * total heap alive ≤ 2 ^ 63 - 1
    → Balanced heap alive k history weights
    → Room heap weights alive
Balanced-Room heap alive k history weights h b = record {
  each = λ q m.
      owed_fits (weight_at weights q) (total heap alive) (picked_times q history) k (share heap q)
        (b.owed q m) (b.above q m) (share-le-total heap q alive m) h;
  all = omega arith;
}

pub own_times :
    (p q : Addr) (history : List (Option Addr))
    → p ≡ q
    → picked_times q (some p ∷ history) ≡ suc (picked_times q history)
own_times p q history e = rw ((==_iff p q).1 e)

pub other_times :
    (p q : Addr) (history : List (Option Addr))
    → p ≢ q
    → picked_times q (some p ∷ history) ≡ picked_times q history
other_times p q history h = ground (arith, h)

pub paid_owed :
    (w w' : ℤ) (t c k s : ℕ)
    → w +ℤ pos (t * c) ≡ pos (k * s)
    → w' ≡ (w +ℤ pos s) -ℤ pos t
    → w' +ℤ pos (t * suc c) ≡ pos (suc k * s)
paid_owed w w' t c k s e f =
    omega (int_laws, ap pos_part e, ap neg_part e, ap pos_part f, ap neg_part f)

pub kept_owed :
    (w w' : ℤ) (t c k s : ℕ)
    → w +ℤ pos (t * c) ≡ pos (k * s)
    → w' ≡ w +ℤ pos s
    → w' +ℤ pos (t * c) ≡ pos (suc k * s)
kept_owed w w' t c k s e f =
    omega (int_laws, ap pos_part e, ap neg_part e, ap pos_part f, ap neg_part f)

pub paid_above :
    (w : ℤ) (t c k s : ℕ)
    → w +ℤ pos (t * c) ≡ pos (k * s)
    → pos 0 <ℤ w +ℤ pos s
    → t * suc c < suc k * s + t
paid_above w t c k s e f = omega (int_laws, ap pos_part e, ap neg_part e)

pub kept_above : (t c k s : ℕ) → t * c < k * s + t → t * c < suc k * s + t
kept_above t c k s h = omega arith

picked_among_other :
    (p : Addr) (qs : List Addr) (history : List (Option Addr))
    → ¬ In p qs
    → picked_among qs (some p ∷ history) ≡ picked_among qs history
picked_among_other p [] history h = refl
picked_among_other p (q ∷ qs) history h =
    ap₂ ◌+◌ (other_times p q history (λ e. h (inl e)))
      (picked_among_other p qs history (λ m. h (inr m)))

pub picked_among_member :
    (p : Addr) (qs : List Addr) (history : List (Option Addr))
    → Distinct qs
    → In p qs
    → picked_among qs (some p ∷ history) ≡ suc (picked_among qs history)
picked_among_member p [] history d m = elim m [ ]
picked_among_member p (q ∷ qs) history d (inl e) = omega (
  arith,
  own_times p q history e,
  picked_among_other p qs history (λ m. d.0 (subst (λ r. In r qs) e m)),
)
picked_among_member p (q ∷ qs) history d (inr m) = omega (
  arith,
  other_times p q history (λ e. d.0 (subst (λ r. In r qs) e m)),
  picked_among_member p qs history d.1 m,
)
