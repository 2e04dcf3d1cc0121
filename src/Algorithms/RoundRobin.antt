-- ===== src/Algorithms/RoundRobin.antt =====
-- algorithms.go: what round robin picks, and that it is fair.
use mathlib.Core.List.{map-append}
use mathlib.Core.Path.{◌≡⟨◌⟩◌, ◌∎, ap₂}
use native.Mathlib.Nat.{suc-add, mod-eq_of_lt, zero-add, add-zero}
use load_balancer_comparison.Base.{
  length-cases, ◌⊎◌, length-drop, take-eq_self, ◌∙◌, sym, ap, ◌++◌, take, map, Option, ◌≤◌, drop, ℕ,
  zero, suc, ◌+◌, ◌-◌, ◌%◌, ◌^◌, ◌<◌, ◌≡◌, refl, inl, inr, true, none, some, List, [], ◌∷◌, length,
  get_elem?, In, arith,
}
use load_balancer_comparison.Backend.{Addr, is_alive}
use load_balancer_comparison.Algorithms.{Heap, get_alive_backends, round_robin_next}
use load_balancer_comparison.Algorithms.Alive.{In-keep_inv}

get_elem?_of_lt {ℓ} :
    {A : Type ℓ} (xs : List A) (i : ℕ) → i < length xs → (a : A) × (get_elem? xs i ≡ some a)
get_elem?_of_lt [] i h = elim h [ ]
get_elem?_of_lt (x ∷ xs) zero h = (x, refl)
get_elem?_of_lt (x ∷ xs) (suc i) h = get_elem?_of_lt xs i (omega arith)

pub In-of_get_elem? : {A : Type 0} (xs : List A) (i : ℕ) (a : A) → get_elem? xs i ≡ some a → In a xs
In-of_get_elem? [] i a h = cc
In-of_get_elem? (x ∷ xs) zero a h = inl (cc)
In-of_get_elem? (x ∷ xs) (suc i) a h = inr (In-of_get_elem? xs i a h)

pred_of_next : (c : ℕ) → c < 2 ^ 64 → ((c + 1) % 2 ^ 64 + 2 ^ 64 - 1) % 2 ^ 64 ≡ c
pred_of_next c h = omega arith

round_robin_some :
    (heap : Heap) (current : ℕ) (backends : List Addr)
    → current < 2 ^ 64
    → 0 < length (get_alive_backends heap backends)
    → let alive = get_alive_backends heap backends in
      (p : Addr) × (round_robin_next heap current backends ≡ (some p, (current + 1) % 2 ^ 64))
      × (get_elem? alive (current % length alive) ≡ some p)
      × In p backends
      × (is_alive (heap p) ≡ true)
unfolding round_robin_next get_alive_backends
round_robin_some heap current backends h live =
    let alive = get_alive_backends heap backends in
    let (p, e) = get_elem?_of_lt alive (current % length alive) (omega arith) in
    let (member, up) =
      In-keep_inv (λ q. is_alive (heap q)) p backends (In-of_get_elem? alive _ p e) in
    (p, ground (arith, e, pred_of_next current h), e, member, up)

-- The pick is the one that the counter points at among the live backends, and the counter moves on.
-- No index is out of range, and without a live backend nothing is picked and nothing changes.
pub round_robin_next_lem :
    (heap : Heap) (current : ℕ) (backends : List Addr)
    → current < 2 ^ 64
    → let alive = get_alive_backends heap backends in
      ((alive ≡ []) × (round_robin_next heap current backends ≡ (none, current)))
      ⊎ ((p : Addr) × (round_robin_next heap current backends ≡ (some p, (current + 1) % 2 ^ 64))
          × (get_elem? alive (current % length alive) ≡ some p)
          × In p backends
          × (is_alive (heap p) ≡ true))
unfolding round_robin_next
round_robin_next_lem heap current backends h =
    elim (length-cases (get_alive_backends heap backends)) [
      | inl e ↦ inl (e, rw e refl)
      | inr live ↦ inr (round_robin_some heap current backends h live)
    ]

-- The answers of `k` calls in a row, with the backends as they are.
abbrev pub picks : Heap → List Addr → ℕ → ℕ → List (Option Addr)
picks heap backends zero current = []
picks heap backends (suc k) current =
    (round_robin_next heap current backends).0
    ∷ picks heap backends k (round_robin_next heap current backends).1

drop_step :
    {A : Type 0} (xs : List A) (i : ℕ) (a : A)
    → get_elem? xs i ≡ some a
    → drop i xs ≡ a ∷ drop (suc i) xs
drop_step [] i a h = cc
drop_step (x ∷ xs) zero a h = cc
drop_step (x ∷ xs) (suc i) a h = drop_step xs i a h

picks_step :
    (heap : Heap) (backends : List Addr) (k current j : ℕ)
    → let alive = get_alive_backends heap backends in
      current < 2 ^ 64
      → current % length alive ≡ j
      → j < length alive
      → picks heap backends k ((current + 1) % 2 ^ 64) ≡ map some (take k (drop (suc j) alive))
      → picks heap backends (suc k) current ≡ map some (take (suc k) (drop j alive))
picks_step heap backends k current j h e b rest =
    let alive = get_alive_backends heap backends in
    let (p, now, at, _, _) = round_robin_some heap current backends h (omega arith) in
    rw (now, drop_step alive j p (ap (get_elem? alive) (sym e) ∙ at), rest)

no_wrap : (c k : ℕ) → c + suc k < 2 ^ 64 → c + 1 < 2 ^ 64
no_wrap c k h = omega arith

next_sum : (c k : ℕ) → c + 1 + k ≡ c + suc k
next_sum c k = omega arith

next_index : (c n j : ℕ) → c % n ≡ j → suc j < n → (c + 1) % n ≡ suc j
next_index c n j e h = grind arith

-- Calls that do not pass the end of the list of live backends take them in order.
picks_run :
    (heap : Heap) (backends : List Addr) (k current j : ℕ)
    → let alive = get_alive_backends heap backends in
      current + k ≤ 2 ^ 64
      → current % length alive ≡ j
      → j + k ≤ length alive
      → picks heap backends k current ≡ map some (take k (drop j alive))
picks_run heap backends zero current j h e b = refl
picks_run heap backends (suc zero) current j h e b =
    picks_step heap backends zero current j (omega arith) e (omega arith) refl
picks_run heap backends (suc (suc k)) current j h e b =
    picks_step heap backends (suc k) current j (omega arith) e (omega arith) (
      rw (mod-eq_of_lt (no_wrap current k (omega arith))) (
        picks_run heap backends (suc k) (current + 1) (suc j) (omega arith)
          (next_index current _ j e (omega arith)) (omega arith)))

picks-append :
    (heap : Heap) (backends : List Addr) (k l current : ℕ)
    → 0 < length (get_alive_backends heap backends)
    → current + k < 2 ^ 64
    → picks heap backends (k + l) current
      ≡ picks heap backends k current ++ picks heap backends l (current + k)
picks-append heap backends zero l current live h = rw (zero-add, add-zero)
picks-append heap backends (suc k) l current live h =
    let (p, now, _, _, _) = round_robin_some heap current backends (omega arith) live in
    rw (
      suc-add,
      now,
      mod-eq_of_lt (no_wrap current k h),
      picks-append heap backends k l (current + 1) live (omega arith),
      next_sum current k,
    )

end_of_round : (c n : ℕ) → 0 < n → (c + (n - c % n)) % n ≡ 0
end_of_round c n h = grind arith

-- A full round, of as many calls as there are live backends, picks each of them once, in the pool's
-- order from the one that the counter points at on, as long as the counter does not overflow.
pub round_robin_fair :
    (heap : Heap) (backends : List Addr) (current : ℕ)
    → 0 < length (get_alive_backends heap backends)
    → current + length (get_alive_backends heap backends) < 2 ^ 64
    → let alive = get_alive_backends heap backends in
      let start = current % length alive in
      picks heap backends (length alive) current ≡ map some (drop start alive ++ take start alive)
round_robin_fair heap backends current live h =
    let alive = get_alive_backends heap backends in
    let start = current % length alive in
    let split : length alive ≡ length alive - start + start = omega arith in
    picks heap backends (length alive) current
    ≡⟨ ap (λ n. picks heap backends n current) split ⟩
      picks heap backends (length alive - start + start) current
    ≡⟨ picks-append heap backends (length alive - start) start current live (omega arith) ⟩
      picks heap backends (length alive - start) current
      ++ picks heap backends start (current + (length alive - start))
    ≡⟨ ap₂ ◌++◌
        (picks_run heap backends (length alive - start) current start (omega arith) refl
          (omega arith))
        (picks_run heap backends start (current + (length alive - start)) 0 (omega arith)
          (end_of_round current _ live) (omega arith)) ⟩
      map some (take (length alive - start) (drop start alive)) ++ map some (take start alive)
    ≡⟨ ap (λ l. map some l ++ map some (take start alive))
        (take-eq_self _ (drop start alive) (omega (arith, length-drop start alive))) ⟩
      map some (drop start alive) ++ map some (take start alive)
    ≡⟨ sym (map-append some _ _) ⟩ map some (drop start alive ++ take start alive) ∎
