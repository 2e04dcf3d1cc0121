-- ===== src/Algorithms/Weighted/Highest.antt =====
-- algorithms.go: what the second loop of weighted round robin selects.
use mathlib.Core.Path.{subst}
-- algorithms.go: the two loops of weighted round robin.
use load_balancer_comparison.Base.{
  ◌≡◌, refl, sym, ap, ◌∙◌, inl, inr, ◌⊎◌, true, false, some, List, [], ◌∷◌, In, arith, Bool-cases,
}
use load_balancer_comparison.Base.Int.{
  pos, ◌+ℤ◌, ◌≤ℤ◌, ◌<ℤ◌, InInt64, ltb_ℤ, ltb_ℤ→lt, ltb_ℤ→le, pos_part, neg_part, wrap64,
  wrap64_of_InInt64,
}
use load_balancer_comparison.Backend.{Addr}
use load_balancer_comparison.Algorithms.{Heap, weight_at, effective_weight, Scan, scan, scan_one}
use load_balancer_comparison.Algorithms.Weighted.{Distinct, share, raised, effective_weight-share}
use load_balancer_comparison.Algorithms.Weighted.Scanned.{scan_one_other, not_head, still_room}

-- What the loop selects: the first of the highest raised weights above the maximum so far, or nothing.
pub record Highest (heap : Heap) (ps : List Addr) (s t : Scan) : Type 0 where
  pub above : s.max_weight ≤ℤ t.max_weight
  pub top : (q : Addr) → In q ps → raised heap s.weights q ≤ℤ t.max_weight
  pub choice :
      ((t.selected ≡ s.selected) × (t.max_weight ≡ s.max_weight))
      ⊎ ((p : Addr) × (t.selected ≡ some p)
          × In p ps
          × (raised heap s.weights p ≡ t.max_weight)
          × (s.max_weight <ℤ t.max_weight))

scan_one_max :
    (heap : Heap) (p : Addr) (s : Scan)
    → InInt64 (raised heap s.weights p)
    → let t = scan_one heap p s in
      ((ltb_ℤ s.max_weight (raised heap s.weights p) ≡ true)
        × (t.max_weight ≡ raised heap s.weights p)
        × (t.selected ≡ some p))
      ⊎ ((ltb_ℤ s.max_weight (raised heap s.weights p) ≡ false)
          × (t.max_weight ≡ s.max_weight)
          × (t.selected ≡ s.selected))
unfolding scan_one
scan_one_max heap p s room =
    let e : wrap64 (weight_at s.weights p +ℤ effective_weight (heap p)) ≡ raised heap s.weights p =
      rw (effective_weight-share heap p) (wrap64_of_InInt64 _ room) in
    elim (Bool-cases (ltb_ℤ s.max_weight (raised heap s.weights p))) [
      | inl more ↦ inl (more, rw (e, more), rw (e, more))
      | inr less ↦ inr (less, rw (e, less), rw (e, less))
    ]

module _ (heap : Heap) (p : Addr) (ps : List Addr) (s : Scan) (fresh : ¬ In p ps)
    (rest : Highest heap ps (scan_one heap p s) (scan heap ps (scan_one heap p s))) where
  same_raised :
      (q : Addr) → In q ps → raised heap (scan_one heap p s).weights q ≡ raised heap s.weights q
  same_raised q m =
      ap (λ w. w +ℤ pos (share heap q)) (scan_one_other heap p q s (not_head p q ps fresh m))

  top_step :
      raised heap s.weights p ≤ℤ (scan_one heap p s).max_weight
      → (q : Addr) → In q (p ∷ ps)
      → raised heap s.weights q ≤ℤ (scan heap ps (scan_one heap p s)).max_weight
  top_step h q (inl e) =
      subst (λ r. raised heap s.weights r ≤ℤ (scan heap ps (scan_one heap p s)).max_weight) (sym e)
        (omega (arith, h, rest.above))
  top_step h q (inr m) =
      subst (λ w. w ≤ℤ (scan heap ps (scan_one heap p s)).max_weight) (same_raised q m)
        (rest.top q m)

  Highest-more :
      s.max_weight <ℤ raised heap s.weights p
      → (scan_one heap p s).max_weight ≡ raised heap s.weights p
      → (scan_one heap p s).selected ≡ some p
      → Highest heap (p ∷ ps) s (scan heap ps (scan_one heap p s))
  Highest-more more max chosen = record {
    above = omega (arith, rest.above, ap pos_part max, ap neg_part max);
    top = top_step (rw max (omega arith));
    choice = elim rest.choice [
      | inl (same, kept) ↦ inr (
        p,
        same ∙ chosen,
        inl refl,
        sym (kept ∙ max),
        omega (arith, rest.above, ap pos_part max, ap neg_part max),
      )
      | inr (q, e, m, at, over) ↦ inr (
        q,
        e,
        inr m,
        sym (same_raised q m) ∙ at,
        omega (arith, over, ap pos_part max, ap neg_part max),
      )
    ];
  }

  Highest-less :
      raised heap s.weights p ≤ℤ s.max_weight
      → (scan_one heap p s).max_weight ≡ s.max_weight
      → (scan_one heap p s).selected ≡ s.selected
      → Highest heap (p ∷ ps) s (scan heap ps (scan_one heap p s))
  Highest-less less max chosen = record {
    above = omega (arith, rest.above, ap pos_part max, ap neg_part max);
    top = top_step (rw max less);
    choice = elim rest.choice [
      | inl (same, kept) ↦ inl (same ∙ chosen, kept ∙ max)
      | inr (q, e, m, at, over) ↦ inr (
        q,
        e,
        inr m,
        sym (same_raised q m) ∙ at,
        omega (arith, over, ap pos_part max, ap neg_part max),
      )
    ];
  }

pub scan-Highest :
    (heap : Heap) (ps : List Addr) (s : Scan)
    → Distinct ps
    → ((r : Addr) → In r ps → InInt64 (raised heap s.weights r))
    → Highest heap ps s (scan heap ps s)
unfolding scan
scan-Highest heap [] s d room = record {
  above = omega arith;
  top = λ q m. elim m [ ];
  choice = inl (refl, refl);
}
scan-Highest heap (p ∷ ps) s d room =
    let rest = scan-Highest heap ps (scan_one heap p s) d.1 (still_room heap p ps s d.0 room) in
    elim (scan_one_max heap p s (room p (inl refl))) [
      | inl (more, max, chosen) ↦
          Highest-more heap p ps s d.0 rest (ltb_ℤ→lt s.max_weight (raised heap s.weights p) more)
            max chosen
      | inr (less, max, chosen) ↦
          Highest-less heap p ps s d.0 rest (ltb_ℤ→le s.max_weight (raised heap s.weights p) less)
            max chosen
    ]
