-- ===== src/Concurrency/Connections.antt =====
-- backend.go: the count of connections while goroutines interleave.
use load_balancer_comparison.Base.{
  ℕ, suc, ◌+◌, ◌^◌, ◌<◌, ◌≡◌, refl, sym, ap, ◌∙◌, ◌⊎◌, inl, inr, arith,
}
use load_balancer_comparison.Base.Int.{pos, negsuc, add64, wrap64, ◌+ℤ◌}
use load_balancer_comparison.Backend.{Backend, set_alive, add_connection, remove_connection}
use load_balancer_comparison.Concurrency.{
  Pc, Method, Move, connect, disconnect, mark, add_error, lock_error, store_success, lock_success,
  read_lock, see_closed, see_open, see_late, close_late, reset_late, Shared, Step, pick, Reach,
  start, later,
}
use load_balancer_comparison.Concurrency.Sums.{update, sum_below, sum_below-update, sum_below_zero}

-- How many connections the first `n` goroutines hold together.
abbrev pub connected_now : ℕ → (ℕ → ℕ) → ℕ
connected_now n connected = sum_below (λ k. k) connected n

-- What a step does to the count, and to the connections of its goroutine.
abbrev Counts : Backend → ℕ → Backend → ℕ → Type 0
Counts b c b' c' =
    ((b'.connections ≡ b.connections) × (c' ≡ c))
    ⊎ ((b'.connections ≡ add64 b.connections (pos 1)) × (c' ≡ suc c))
    ⊎ ((b'.connections ≡ add64 b.connections (negsuc 0)) × (c ≡ suc c'))

Move-Counts :
    {b b' : Backend} {readers : ℕ} {m : Method} {c c' : ℕ} {p p' : Pc}
    → Move b readers m c p b' c' p'
    → Counts b c b' c'
unfolding add_connection remove_connection set_alive
Move-Counts connect = inr (inl (refl, refl))
Move-Counts disconnect = inr (inr (refl, refl))
Move-Counts (mark a) = inl (refl, refl)
Move-Counts add_error = inl (refl, refl)
Move-Counts (lock_error now h) = inl (refl, refl)
Move-Counts store_success = inl (refl, refl)
Move-Counts (lock_success h) = inl (refl, refl)
Move-Counts read_lock = inl (refl, refl)
Move-Counts (see_closed h) = inl (refl, refl)
Move-Counts (see_open now h k) = inl (refl, refl)
Move-Counts (see_late now h k) = inl (refl, refl)
Move-Counts close_late = inl (refl, refl)
Move-Counts reset_late = inl (refl, refl)

up : (m : ℕ) → add64 (wrap64 (pos m)) (pos 1) ≡ wrap64 (pos (m + 1))
unfolding wrap64 ◌+ℤ◌
up m = ground arith

down : (m : ℕ) → add64 (wrap64 (pos (m + 1))) (negsuc 0) ≡ wrap64 (pos m)
unfolding wrap64 ◌+ℤ◌
down m = ground arith

Step-connections :
    (n : ℕ) {s t : Shared}
    → Step n s t
    → s.backend.connections ≡ wrap64 (pos (connected_now n s.connected))
    → t.backend.connections ≡ wrap64 (pos (connected_now n t.connected))
Step-connections n {s} (pick i {m} {b} {c} less mv) h =
    let before : ℕ = connected_now n s.connected in
    let after : ℕ = connected_now n (update s.connected i c) in
    let changed : s.connected i + after ≡ c + before =
      sum_below-update (λ k. k) s.connected i n c less in
    elim (Move-Counts mv) [
      | inl (same, e) ↦ same ∙ h ∙ ap (λ k. wrap64 (pos k)) (omega (arith, changed, e))
      | inr (inl (added, e)) ↦
          added
          ∙ ap (λ k. add64 k (pos 1)) h
          ∙ up before
          ∙ ap (λ k. wrap64 (pos k)) (omega (arith, changed, e))
      | inr (inr (removed, e)) ↦
          let less_now : before ≡ after + 1 = omega (arith, changed, e) in
          removed
          ∙ ap (λ k. add64 k (negsuc 0)) (h ∙ ap (λ k. wrap64 (pos k)) less_now)
          ∙ down after
    ]

Reach-connections_wrapped :
    (n : ℕ) (b : Backend) {s : Shared}
    → b.connections ≡ pos 0
    → Reach n b s
    → s.backend.connections ≡ wrap64 (pos (connected_now n s.connected))
unfolding wrap64
Reach-connections_wrapped n b none_yet start =
    none_yet ∙ ap (λ k. wrap64 (pos k)) (sym (sum_below_zero (λ k. k) (λ i. 0) n (λ i. refl)))
Reach-connections_wrapped n b none_yet (later r st) =
    Step-connections n st (Reach-connections_wrapped n b none_yet r)

fits : (m : ℕ) → m < 2 ^ 63 → wrap64 (pos m) ≡ pos m
unfolding wrap64
fits m h = ground arith

-- However the goroutines interleave, the count of connections of a backend is the number of
-- connections that they hold together: the calls of `AddConnection` that are not yet undone, also
-- where a retry has a second one in the same goroutine. In particular it is never negative. The count
-- is 0 at first, and that number is below 2 ^ 63.
pub Reach-connections :
    (n : ℕ) (b : Backend) {s : Shared}
    → b.connections ≡ pos 0
    → Reach n b s
    → connected_now n s.connected < 2 ^ 63
    → s.backend.connections ≡ pos (connected_now n s.connected)
Reach-connections n b {s} none_yet r few =
    Reach-connections_wrapped n b none_yet r ∙ fits (connected_now n s.connected) few
