-- ===== src/TestBackend/Delay.antt =====
-- TestBackend/backend.go: the delay of a reply.
use native.Mathlib.Decide.{ℕ_discrete}
use native.Mathlib.Nat.{mod-lt}
use load_balancer_comparison.Base.{
  ltb→lt, ◌≢◌, ap, ◌∙◌, ltb, Bool-cases, ◌-◌, ◌+◌, ◌%◌, true, ℕ, ◌≡◌, ◌<◌, ◌≤◌, ◌^◌, refl, ◌⊎◌, inl,
  inr, some, none, arith,
}
use load_balancer_comparison.Base.Int.{leb_ℤ, pos, add64, sub64, wrap64_of_InInt64, ◌-ℤ◌, ◌+ℤ◌}
use load_balancer_comparison.TestBackend.{Backend, get_delay, int63n, delay_after}

sub64_below : (m k : ℕ) → m ≤ k → k < 2 ^ 63 → leb_ℤ (sub64 (pos m) (pos k)) (pos 0) ≡ true
unfolding ◌-ℤ◌
sub64_below m k h hk =
    rw (wrap64_of_InInt64 (pos m -ℤ pos k) (ground arith, ground arith)) (ground arith)

sub64_above : (m k : ℕ) → k < m → m < 2 ^ 63 → sub64 (pos m) (pos k) ≡ pos (m - k)
unfolding ◌-ℤ◌
sub64_above m k h hm =
    rw (wrap64_of_InInt64 (pos m -ℤ pos k) (ground arith, ground arith)) (ground arith)

add64_pos : (k d : ℕ) → k + d < 2 ^ 63 → add64 (pos k) (pos d) ≡ pos (k + d)
unfolding ◌+ℤ◌
add64_pos k d h =
    rw (wrap64_of_InInt64 (pos k +ℤ pos d) (ground arith, ground arith)) (ground arith)

int63n_below : (r m k : ℕ) → m ≤ k → k < 2 ^ 63 → int63n r (sub64 (pos m) (pos k)) ≡ none
int63n_below r m k h hk = rw (sub64_below m k h hk) refl

int63n_above :
    (r m k : ℕ) → k < m → m < 2 ^ 63 → int63n r (sub64 (pos m) (pos k)) ≡ some (pos (r % (m - k)))
int63n_above r m k h hm = rw (sub64_above m k h hm) (ground arith)

get_delay_drawn :
    {F : Type 0} (r k m : ℕ) (b : Backend F)
    → b.base_delay ≡ pos k
    → b.max_delay ≡ pos m
    → m ≢ 0
    → get_delay r b ≡ delay_after (pos k) (int63n r (sub64 (pos m) (pos k)))
unfolding get_delay
get_delay_drawn r k m b base max h = rw (base, max) (ground arith)

-- For delays that are not negative and fit an int64: the delay is drawn from the range that starts at
-- the base delay and ends before the maximum one, or is the base delay when no maximum is set. A
-- maximum that is set but not above the base delay makes the computation panic.
pub get_delay_lem :
    {F : Type 0} (r k m : ℕ) (b : Backend F)
    → b.base_delay ≡ pos k
    → b.max_delay ≡ pos m
    → k < 2 ^ 63
    → m < 2 ^ 63
    → ((m ≡ 0) × (get_delay r b ≡ some (pos k)))
      ⊎ ((0 < m) × (m ≤ k) × (get_delay r b ≡ none))
      ⊎ ((k < m) × ((d : ℕ) × (get_delay r b ≡ some (pos d)) × (k ≤ d) × (d < m)))
unfolding get_delay
get_delay_lem r k m b base max hk hm = elim (ℕ_discrete m 0) [
  | yes zero_max ↦ inl (zero_max, rw (base, max, zero_max) refl)
  | no some_max ↦ elim (Bool-cases (ltb k m)) [
    | inl above ↦
        let over : k < m = ltb→lt k m above in
        let room : r % (m - k) < m - k = mod-lt r (omega arith) in
        inr (
          inr (
            omega arith,
            (
              k + r % (m - k),
              get_delay_drawn r k m b base max some_max
                  ∙ ap (delay_after (pos k)) (int63n_above r m k (omega arith) hm)
                  ∙ ap some (add64_pos k (r % (m - k)) (omega arith)),
              omega arith,
              omega arith,
            ),
          ))
    | inr below ↦
        let under : m ≤ k = ground arith in
        inr (
          inl (
            omega arith,
            under,
            get_delay_drawn r k m b base max some_max
                ∙ ap (delay_after (pos k)) (int63n_below r m k under hk),
          ))
  ]
]
