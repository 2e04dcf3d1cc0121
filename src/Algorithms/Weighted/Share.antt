-- ===== src/Algorithms/Weighted/Share.antt =====
-- algorithms.go: over many calls weighted round robin gives every live backend its share.
use mathlib.Core.Path.{subst}
use load_balancer_comparison.Base.{
  leb→le, leb, ℕ, zero, suc, ◌+◌, ◌-◌, ◌*◌, ◌^◌, ◌==◌, ==_iff, ◌≤◌, ◌<◌, ◌≡◌, refl, sym, ap, ◌∙◌,
  inl, inr, ◌≢◌, Option, some, List, [], ◌∷◌, In, arith, Bool-cases, length,
}
use load_balancer_comparison.Base.Int.{ℤ, pos, ◌+ℤ◌, ◌-ℤ◌, ◌<ℤ◌, int_laws, pos_part, neg_part}
use load_balancer_comparison.Backend.{Addr}
use load_balancer_comparison.Algorithms.{
  Heap, Weights, weight_at, weighted_next, get_alive_backends,
}
use load_balancer_comparison.Algorithms.Weighted.{Distinct, share, total, raised, sum}
use load_balancer_comparison.Algorithms.Weighted.Round.{Picked}
use load_balancer_comparison.Algorithms.Weighted.Sums.{
  sum_same, total_pos, Picked_pos, Picked-sum, weighted_next_picks,
}
use load_balancer_comparison.Algorithms.Weighted.Tally.{
  rounds, picked_times, picked_among, Balanced, mul_mono, Balanced-Room, own_times, other_times,
  paid_owed, kept_owed, paid_above, kept_above, picked_among_member,
}

module _ (heap : Heap) (alive : List Addr) (k : ℕ) (history : List (Option Addr))
    (weights : Weights) (p : Addr) (weights' : Weights) (d : Distinct alive)
    (b : Balanced heap alive k history weights) (h : Picked heap weights alive p weights') where
  owed_next :
      (q : Addr)
      → In q alive
      → weight_at weights' q +ℤ pos (total heap alive * picked_times q (some p ∷ history))
        ≡ pos (suc k * share heap q)
  owed_next q m = elim (Bool-cases (p == q)) [
    | inl e ↦
        let pq : p ≡ q = (==_iff p q).0 e in
        rw (own_times p q history pq) (
          paid_owed (weight_at weights q) (weight_at weights' q) (total heap alive)
            (picked_times q history) k (share heap q) (b.owed q m)
            (subst (λ r. weight_at weights' r ≡ raised heap weights r -ℤ pos (total heap alive)) pq
              h.paid))
    | inr e ↦
        let ne : p ≢ q = λ f. ground (arith, f) in
        rw (other_times p q history ne) (
          kept_owed (weight_at weights q) (weight_at weights' q) (total heap alive)
            (picked_times q history) k (share heap q) (b.owed q m) (h.others q m ne))
  ]

  above_next :
      (q : Addr)
      → In q alive
      → total heap alive * picked_times q (some p ∷ history)
        < suc k * share heap q + total heap alive
  above_next q m = elim (Bool-cases (p == q)) [
    | inl e ↦
        let pq : p ≡ q = (==_iff p q).0 e in
        rw (own_times p q history pq) (
          paid_above (weight_at weights q) (total heap alive) (picked_times q history) k
            (share heap q) (b.owed q m)
            (subst (λ r. pos 0 <ℤ raised heap weights r) pq
              (Picked_pos heap weights alive p weights' (rw b.zero_sum (omega arith)) h)))
    | inr e ↦
        rw (other_times p q history (λ f. ground (arith, f)))
          (kept_above (total heap alive) (picked_times q history) k (share heap q) (b.above q m))
  ]

  spent_next : picked_among alive (some p ∷ history) ≡ suc k
  spent_next = picked_among_member p alive history d h.member ∙ ap suc b.spent

  Balanced-next : Balanced heap alive (suc k) (some p ∷ history) weights'
  Balanced-next = record {
    owed = owed_next;
    above = above_next;
    zero_sum = Picked-sum heap weights alive p weights' d h ∙ b.zero_sum;
    spent = spent_next;
  }

start_owed : (t s : ℕ) → pos 0 +ℤ pos (t * 0) ≡ pos (0 * s)
start_owed t s = omega int_laws

zero_twice : pos 0 +ℤ pos 0 ≡ pos 0
zero_twice = omega int_laws

sum_zero : (ps : List Addr) → sum (λ q. pos 0) ps ≡ pos 0
sum_zero [] = refl
sum_zero (p ∷ ps) = ap (λ s. pos 0 +ℤ s) (sum_zero ps) ∙ zero_twice

none_spent : (ps : List Addr) → picked_among ps [] ≡ 0
none_spent [] = refl
none_spent (p ∷ ps) = omega (arith, none_spent ps)

length_pos : (ps : List Addr) (q : Addr) → In q ps → 0 < length ps
length_pos [] q m = elim m [ ]
length_pos (p ∷ ps) q m = omega arith

le_of_mul : (t c s : ℕ) → t * c < t * s + t → c ≤ s
le_of_mul t c s h = elim (Bool-cases (leb c s)) [
  | inl e ↦ leb→le c s e
  | inr e ↦ absurd (omega (arith, mul_mono t (suc s) c (ground (arith, e))))
]

picked_among-le :
    (heap : Heap) (ps : List Addr) (history : List (Option Addr))
    → ((r : Addr) → In r ps → picked_times r history ≤ share heap r)
    → picked_among ps history ≤ total heap ps
picked_among-le heap [] history h = omega arith
picked_among-le heap (p ∷ ps) history h =
    omega (arith, h p (inl refl), picked_among-le heap ps history (λ r m. h r (inr m)))

-- Numbers that reach their bounds in the sum reach each of them.
pinned :
    (heap : Heap) (ps : List Addr) (history : List (Option Addr))
    → ((r : Addr) → In r ps → picked_times r history ≤ share heap r)
    → picked_among ps history ≡ total heap ps
    → (q : Addr) → In q ps
    → picked_times q history ≡ share heap q
pinned heap [] history h e q m = elim m [ ]
pinned heap (p ∷ ps) history h e q (inl qp) =
    subst (λ r. picked_times r history ≡ share heap r) (sym qp)
      (omega (arith, h p (inl refl), picked_among-le heap ps history (λ r n. h r (inr n))))
pinned heap (p ∷ ps) history h e q (inr m) =
    pinned heap ps history (λ r n. h r (inr n))
      (omega (arith, h p (inl refl), picked_among-le heap ps history (λ r n. h r (inr n)))) q m

settled : (w : ℤ) (t c s : ℕ) → c ≡ s → w +ℤ pos (t * c) ≡ pos (t * s) → w ≡ pos 0
settled w t c s e h = omega (int_laws, ap pos_part h, ap neg_part h, ap (λ (n : ℕ). t * n) e)

rounds-Balanced :
    (heap : Heap) (backends : List Addr) (k : ℕ) (weights : Weights)
    → let alive = get_alive_backends heap backends in
      let (history, weights') = rounds heap backends k weights in
      Distinct alive
      → 0 < length alive
      → k * total heap alive ≤ 2 ^ 63 - 1
      → ((q : Addr) → In q alive → weight_at weights q ≡ pos 0)
      → Balanced heap alive k history weights'
rounds-Balanced heap backends zero weights d l h zero_at = record {
  owed = λ q m. rw (zero_at q m) (start_owed (total heap alive) (share heap q));
  above = λ q m. omega (arith, total_pos_of alive l);
  zero_sum = sum_same (weight_at weights) (λ q. pos 0) alive zero_at ∙ sum_zero alive;
  spent = none_spent alive;
}
  where
    alive : List Addr
    alive = get_alive_backends heap backends

    total_pos_of : (ps : List Addr) → 0 < length ps → 0 < total heap ps
    total_pos_of [] l = elim l [ ]
    total_pos_of (p ∷ ps) l = total_pos heap p ps
rounds-Balanced heap backends (suc k) weights d l h zero_at =
    let alive = get_alive_backends heap backends in
    let (history, weights1) = rounds heap backends k weights in
    let b = rounds-Balanced heap backends k weights d l (omega arith) zero_at in
    let room = Balanced-Room heap alive k history weights1 h b in
    let (p, e, picked) =
      weighted_next_picks heap weights1 backends d room l (rw b.zero_sum (omega arith)) in
    subst (λ o. Balanced heap alive (suc k) (o ∷ history) (weighted_next heap weights1 backends).1)
      (sym e) (Balanced-next heap alive k history weights1 p _ d b picked)

-- From weights of 0, while the live backends stay the same, no backend is ever picked more often than
-- its share of the calls, rounded up. The live backends are distinct, and the number of calls times
-- the sum of their weights fits an int64.
pub weighted_share_bound :
    (heap : Heap) (backends : List Addr) (k : ℕ) (weights : Weights) (q : Addr)
    → Distinct (get_alive_backends heap backends)
    → k * total heap (get_alive_backends heap backends) ≤ 2 ^ 63 - 1
    → ((r : Addr) → In r (get_alive_backends heap backends) → weight_at weights r ≡ pos 0)
    → In q (get_alive_backends heap backends)
    → let alive = get_alive_backends heap backends in
      total heap alive * picked_times q (rounds heap backends k weights).0
      < k * share heap q + total heap alive
weighted_share_bound heap backends k weights q d h zero_at m =
    (rounds-Balanced heap backends k weights d (length_pos _ q m) h zero_at).above q m

-- From current weights of 0, in as many calls as the weights of the live backends add up to, each live
-- backend is picked exactly as often as its weight says, and its current weight is 0 again. The live
-- backends stay the same and are distinct, and the square of that sum fits an int64.
pub weighted_full_cycle :
    (heap : Heap) (backends : List Addr) (weights : Weights) (q : Addr)
    → Distinct (get_alive_backends heap backends)
    → total heap (get_alive_backends heap backends) * total heap (get_alive_backends heap backends)
      ≤ 2 ^ 63 - 1
    → ((r : Addr) → In r (get_alive_backends heap backends) → weight_at weights r ≡ pos 0)
    → In q (get_alive_backends heap backends)
    → let alive = get_alive_backends heap backends in
      let (history, weights') = rounds heap backends (total heap alive) weights in
      (picked_times q history ≡ share heap q) × (weight_at weights' q ≡ pos 0)
weighted_full_cycle heap backends weights q d h zero_at m =
    let alive = get_alive_backends heap backends in
    let (history, weights') = rounds heap backends (total heap alive) weights in
    let b =
      rounds-Balanced heap backends (total heap alive) weights d (length_pos alive q m) h zero_at in
    let times : picked_times q history ≡ share heap q =
      pinned heap alive history
        (λ r n. le_of_mul (total heap alive) (picked_times r history) (share heap r) (b.above r n))
        b.spent q m in
    (
      times,
      settled (weight_at weights' q) (total heap alive) (picked_times q history) (share heap q)
          times (b.owed q m),
    )
