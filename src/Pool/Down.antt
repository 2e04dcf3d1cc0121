-- ===== src/Pool/Down.antt =====
-- serverpool.go: a pool in which no backend can be sent a request.
use native.Mathlib.Decide.{ℕ_discrete}
use mathlib.Core.Path.{subst}
use load_balancer_comparison.Base.{
  arith, ℕ, ◌≡◌, refl, ap, ◌∙◌, ◌⊎◌, inl, inr, true, false, none, List, [], ◌∷◌, All, All-mono,
  Bool-cases,
}
use load_balancer_comparison.Base.Int.{ltb_ℤ}
use load_balancer_comparison.Backend.{Addr, Backend, Time, time_sub, is_alive, is_circuit_open}
use load_balancer_comparison.Store.{Store, look, is_available}
use load_balancer_comparison.Store.Looks.{look-Eases, Eases-alive, look-is_circuit_open, look_other}
use load_balancer_comparison.Pool.{ServerPool, survey, reason, next_available_peer}

-- A backend that is down, or whose circuit is open and has not timed out at any reading of the clock.
abbrev pub Unready : Store → Addr → Type 0
Unready s p =
    ((s.heap p).alive ≡ false)
    ⊎ (((s.heap p).circuit_open ≡ true)
        × ((k : ℕ)
            → ltb_ℤ (s.heap p).circuit_timeout (time_sub (s.clock k) (s.heap p).last_error_time)
              ≡ false))

still_open :
    (b : Backend) (now : Time)
    → b.circuit_open ≡ true
    → ltb_ℤ b.circuit_timeout (time_sub now b.last_error_time) ≡ false
    → is_circuit_open b now ≡ (true, b)
unfolding is_circuit_open
still_open b now o late = rw (o, late) refl

look_self :
    (p : Addr) (s : Store)
    → (s.heap p).circuit_open ≡ true
    → ltb_ℤ (s.heap p).circuit_timeout (time_sub (s.clock s.reads) (s.heap p).last_error_time)
      ≡ false
    → (look p s).1.heap p ≡ s.heap p
look_self p s o late =
    (look-is_circuit_open p s).1 ∙ ap (λ r. r.1) (still_open (s.heap p) (s.clock s.reads) o late)

look_kept :
    (p q : Addr) (s : Store)
    → (s.heap q).circuit_open ≡ true
    → ltb_ℤ (s.heap q).circuit_timeout (time_sub (s.clock s.reads) (s.heap q).last_error_time)
      ≡ false
    → (look p s).1.heap q ≡ s.heap q
look_kept p q s o late = elim (ℕ_discrete p q) [
  | yes e ↦ subst (λ r. (look p s).1.heap r ≡ s.heap r) e (look_self p s (rw e o) (rw e late))
  | no n ↦ look_other p q s n
]

look-Unready : (p q : Addr) (s : Store) → Unready s q → Unready (look p s).1 q
look-Unready p q s (inl down) = inl (Eases-alive s (look p s).1 q (look-Eases p s) ∙ down)
look-Unready p q s (inr waits) =
    let kept = look_kept p q s waits.0 (waits.1 s.reads) in
    inr (rw kept waits.0, λ k. rw (kept, (look-Eases p s).clock_same) (waits.1 k))

is_available_looks : (p : Addr) (s : Store) → (look p s).0 ≡ true → (is_available p s).0 ≡ false
unfolding is_available
is_available_looks p s h = ground arith

is_available_down : (p : Addr) (s : Store) → Unready s p → (is_available p s).0 ≡ false
unfolding is_available is_alive
is_available_down p s (inl down) = rw down refl
is_available_down p s (inr waits) = is_available_looks p s (
    (look-is_circuit_open p s).0
    ∙ ap (λ r. r.0) (still_open (s.heap p) (s.clock s.reads) waits.0 (waits.1 s.reads)))

is_available-Unready : (p q : Addr) (s : Store) → Unready s q → Unready (is_available p s).1 q
unfolding is_available
is_available-Unready p q s u = elim (Bool-cases (is_alive (s.heap p))) [
  | inl up ↦ rw up (look-Unready p q s u)
  | inr down ↦ rw down u
]

reason-Unready : (p q : Addr) (s : Store) → Unready s q → Unready (reason p s).1 q
unfolding reason
reason-Unready p q s u = elim (Bool-cases (is_alive (s.heap p))) [
  | inl up ↦ rw up (look-Unready p q s u)
  | inr down ↦ rw down (look-Unready p q s u)
]

first_down : (p q : Addr) (s : Store) → Unready s q → Unready (reason p (is_available p s).1).1 q
first_down p q s u = reason-Unready p q (is_available p s).1 (is_available-Unready p q s u)

survey_down : (ps : List Addr) (s : Store) → All (Unready s) ps → (survey ps s).0.0 ≡ []
unfolding survey
survey_down [] s u = refl
survey_down (p ∷ ps) s u = rw (is_available_down p s u.0) (
    survey_down ps (reason p (is_available p s).1).1 (
      All-mono (Unready s) (Unready (reason p (is_available p s).1).1) ps (λ q. first_down p q s)
        u.1))

-- Nobody is chosen.
pub next_available_peer-none :
    (pool : ServerPool) (s : Store)
    → All (Unready s) pool.backends
    → (next_available_peer pool s).0 ≡ none
unfolding next_available_peer
next_available_peer-none pool s u = rw (survey_down pool.backends s u) refl
