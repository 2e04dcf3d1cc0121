-- ===== src/Algorithms/Weighted/Round.antt =====
-- algorithms.go: one call of `NextBackend` of weighted round robin.
use mathlib.Core.Path.{subst}
use load_balancer_comparison.Base.{
  ℕ, ◌-◌, ◌^◌, ◌==◌, ◌≤◌, ◌≡◌, refl, sym, ap, ◌∙◌, inl, inr, ◌⊎◌, ◌≢◌, true, Option, none, some,
  List, [], ◌∷◌, In, arith, Bool-cases, length,
}
use load_balancer_comparison.Base.Int.{
  ℤ, pos, negsuc, ◌+ℤ◌, ◌-ℤ◌, ◌≤ℤ◌, ◌<ℤ◌, InInt64, int_laws, sub64, wrap64_of_InInt64, pos_part,
  neg_part,
}
use load_balancer_comparison.Backend.{Addr}
use load_balancer_comparison.Algorithms.{
  Heap, Weights, weight_at, Scan, scan, first_scan, init_weights, settle, weighted_next,
  get_alive_backends,
}
use load_balancer_comparison.Algorithms.Weighted.{Distinct, Room, share, total, raised}
use load_balancer_comparison.Algorithms.Weighted.Highest.{Highest, scan-Highest}
use load_balancer_comparison.Algorithms.Weighted.Scanned.{
  scan_total, scan_raises, scan_other, weight_at-put_self, weight_at-put_other,
  weight_at-init_weights,
}

-- The round picked `p`: its raised weight is the highest and not negative, and it pays the total.
pub record Picked (heap : Heap) (weights : Weights) (alive : List Addr) (p : Addr)
    (weights' : Weights) : Type 0 where
  pub member : In p alive
  pub nonneg : pos 0 ≤ℤ raised heap weights p
  pub top : (q : Addr) → In q alive → raised heap weights q ≤ℤ raised heap weights p
  pub paid : weight_at weights' p ≡ raised heap weights p -ℤ pos (total heap alive)
  pub others : (q : Addr) → In q alive → p ≢ q → weight_at weights' q ≡ raised heap weights q
  pub outside : (q : Addr) → ¬ In q alive → weight_at weights' q ≡ weight_at weights q

-- The round picked nobody: every raised weight is negative, and is kept.
pub record Skipped (heap : Heap) (weights : Weights) (alive : List Addr) (weights' : Weights)
    : Type 0 where
  pub negative : (q : Addr) → In q alive → raised heap weights q <ℤ pos 0
  pub kept : (q : Addr) → In q alive → weight_at weights' q ≡ raised heap weights q
  pub outside : (q : Addr) → ¬ In q alive → weight_at weights' q ≡ weight_at weights q

abbrev pub Outcome : Heap → Weights → List Addr → Option Addr × Weights → Type 0
Outcome heap weights alive r =
    ((p : Addr) × (r.0 ≡ some p) × Picked heap weights alive p r.1)
    ⊎ ((r.0 ≡ none) × Skipped heap weights alive r.1)

in_range : (w : ℤ) (n : ℕ) → InInt64 w → pos 0 ≤ℤ w → n ≤ 2 ^ 63 - 1 → InInt64 (w -ℤ pos n)
in_range w n h l s = omega int_laws

payment : (w : ℤ) (n : ℕ) → InInt64 w → pos 0 ≤ℤ w → n ≤ 2 ^ 63 - 1 → sub64 w (pos n) ≡ w -ℤ pos n
payment w n h l s = wrap64_of_InInt64 (w -ℤ pos n) (in_range w n h l s)

module _ (heap : Heap) (weights : Weights) (alive : List Addr) (d : Distinct alive)
    (room : Room heap weights alive) where
  abbrev start : Scan
  start = first_scan (init_weights weights alive)

  abbrev final : Scan
  final = scan heap alive start

  raised_start : (q : Addr) → raised heap start.weights q ≡ raised heap weights q
  raised_start q = ap (λ w. w +ℤ pos (share heap q)) (weight_at-init_weights alive weights q)

  room_start : (q : Addr) → In q alive → InInt64 (raised heap start.weights q)
  room_start q m = rw (raised_start q) (room.each q m)

  final_at : (q : Addr) → In q alive → weight_at final.weights q ≡ raised heap weights q
  final_at q m = scan_raises heap alive start q d room_start m ∙ raised_start q

  final_outside : (q : Addr) → ¬ In q alive → weight_at final.weights q ≡ weight_at weights q
  final_outside q h = scan_other heap alive start q h ∙ weight_at-init_weights alive weights q

  final_total : final.total_weight ≡ pos (total heap alive)
  final_total = scan_total heap alive start 0 refl (omega (arith, room.all)) ∙ ap pos (omega arith)

  highest : Highest heap alive start final
  highest = scan-Highest heap alive start d room_start

  below_max : (q : Addr) → In q alive → raised heap weights q ≤ℤ final.max_weight
  below_max q m = subst (λ w. w ≤ℤ final.max_weight) (raised_start q) (highest.top q m)

  final-Skipped : final.max_weight ≡ negsuc 0 → Skipped heap weights alive final.weights
  final-Skipped at = record {
    negative = λ q m. omega (arith, below_max q m, ap pos_part at, ap neg_part at);
    kept = final_at;
    outside = final_outside;
  }

  final-Picked :
      (p : Addr)
      → In p alive
      → raised heap weights p ≡ final.max_weight
      → negsuc 0 <ℤ final.max_weight
      → Picked heap weights alive p (settle final (some p)).1
  final-Picked p m at over = record {
    member = m;
    nonneg = nonneg;
    top = λ q n. subst (λ w. raised heap weights q ≤ℤ w) (sym at) (below_max q n);
    paid =
        weight_at-put_self final.weights p _
        ∙ ap (λ w. sub64 w final.total_weight) (final_at p m)
        ∙ ap (λ t. sub64 (raised heap weights p) t) final_total
        ∙ payment (raised heap weights p) (total heap alive) (room.each p m) nonneg room.all;
    others = λ q n ne. weight_at-put_other final.weights p q _ ne ∙ final_at q n;
    outside = λ q n.
        weight_at-put_other final.weights p q _ (λ e. n (subst (λ r. In r alive) e m))
        ∙ final_outside q n;
  }
    where
      nonneg : pos 0 ≤ℤ raised heap weights p
      nonneg = subst (λ w. pos 0 ≤ℤ w) (sym at) (omega (arith, over))

  settle-Outcome : Outcome heap weights alive (settle final final.selected)
  settle-Outcome = elim highest.choice [
    | inl (e, at) ↦
        subst (λ o. Outcome heap weights alive (settle final o)) (sym e)
          (inr (refl, final-Skipped at))
    | inr (p, e, m, at, over) ↦
        subst (λ o. Outcome heap weights alive (settle final o)) (sym e)
          (inl (p, refl, final-Picked p m (sym (raised_start p) ∙ at) over))
  ]

nobody_alive : (heap : Heap) (weights : Weights) → Skipped heap weights [] weights
nobody_alive heap weights = record {
  negative = λ q m. elim m [ ];
  kept = λ q m. elim m [ ];
  outside = λ q h. refl;
}

length-eq_zero {ℓ} : {A : Type ℓ} (xs : List A) → (length xs == 0) ≡ true → xs ≡ []
length-eq_zero [] h = refl
length-eq_zero (x ∷ xs) h = ground arith

-- While no sum overflows and the live backends are distinct, one call raises the weight of every
-- live backend by its own weight. If a raised weight is not negative, a backend with the highest is
-- picked and pays the total of the weights; otherwise nobody is picked. All other current weights
-- stay.
pub weighted_next_lem :
    (heap : Heap) (weights : Weights) (backends : List Addr)
    → Distinct (get_alive_backends heap backends)
    → Room heap weights (get_alive_backends heap backends)
    → Outcome heap weights (get_alive_backends heap backends) (weighted_next heap weights backends)
unfolding weighted_next
weighted_next_lem heap weights backends d room =
    let alive = get_alive_backends heap backends in
    elim (Bool-cases (length alive == 0)) [
      | inl e ↦ rw e (
          inr (
            refl,
            subst (λ ps. Skipped heap weights ps weights) (sym (length-eq_zero alive e))
                (nobody_alive heap weights),
          ))
      | inr e ↦ rw e (settle-Outcome heap weights alive d room)
    ]
