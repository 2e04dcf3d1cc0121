-- ===== src/Store/Looks.antt =====
-- backend.go: looking at circuits has a side effect, and this is all of it: a circuit that has timed
-- out is closed.
use native.Mathlib.Decide.{ℕ_discrete}
use mathlib.Core.Path.{subst}
use load_balancer_comparison.Base.{
  ℕ, suc, ◌≤◌, ◌<◌, ap, ◌≢◌, Bool-cases, ◌∙◌, ◌≡◌, refl, ◌⊎◌, inl, inr, true, false, arith,
}
use load_balancer_comparison.Base.Int.{pos, ltb_ℤ}
use load_balancer_comparison.Backend.{Addr, Time, Backend, time_sub, is_circuit_open, is_alive}
use load_balancer_comparison.Store.{Store, look, is_available}

abbrev pub reset : Backend → Backend
reset b = record b { circuit_open = false; consecutive_errors = pos 0 }

-- The circuit is open, and its timeout has passed at one of the clock's readings from `first` on and
-- before `next`.
abbrev pub Late : (ℕ → Time) → ℕ → ℕ → Backend → Type 0
Late clock first next b =
    (k : ℕ) × (first ≤ k)
    × (k < next)
    × (b.circuit_open ≡ true)
    × (ltb_ℤ b.circuit_timeout (time_sub (clock k) b.last_error_time) ≡ true)

-- A backend after some looks that took these readings: unchanged, or closed since its timeout had
-- passed at one of them.
abbrev pub Eased : (ℕ → Time) → ℕ → ℕ → Backend → Backend → Type 0
Eased clock first next b b' = (b' ≡ b) ⊎ (Late clock first next b × (b' ≡ reset b))

pub record Eases (s s' : Store) : Type 0 where
  pub eased : (q : Addr) → Eased s.clock s.reads s'.reads (s.heap q) (s'.heap q)
  pub fresh_same : s'.fresh ≡ s.fresh
  pub clock_same : s'.clock ≡ s.clock
  pub reads_on : s.reads ≤ s'.reads

pub Eases-refl : (s : Store) → Eases s s
Eases-refl s = record {
  eased = λ q. inl refl;
  fresh_same = refl;
  clock_same = refl;
  reads_on = omega arith;
}

reopened : (b c : Backend) → c ≡ reset b → c.circuit_open ≡ true → ⊥
reopened b c e o = cc (ap (λ (x : Backend). x.circuit_open) e, o)

Late-wider :
    (clock : ℕ → Time) (k l m n : ℕ) (b : Backend)
    → k ≤ l
    → m ≤ n
    → Late clock l m b
    → Late clock k n b
Late-wider clock k l m n b h g (i, from_on, before, o, t) = (i, omega arith, omega arith, o, t)

Eased-trans :
    (clock : ℕ → Time) (k l m : ℕ) (b c d : Backend)
    → k ≤ l
    → l ≤ m
    → Eased clock k l b c
    → Eased clock l m c d
    → Eased clock k m b d
Eased-trans clock k l m b c d h g (inl e) (inl f) = inl (f ∙ e)
Eased-trans clock k l m b c d h g (inl e) (inr (late, f)) =
    inr (Late-wider clock k l m m b h (omega arith) (subst (Late clock l m) e late), f ∙ ap reset e)
Eased-trans clock k l m b c d h g (inr (late, e)) (inl f) =
    inr (Late-wider clock k k l m b (omega arith) g late, f ∙ e)
Eased-trans clock k l m b c d h g (inr (late, e)) (inr (late', f)) = absurd (reopened b c e late'.3)

pub Eases-trans : (s t u : Store) → Eases s t → Eases t u → Eases s u
Eases-trans s t u g h = record {
  eased = λ q.
      Eased-trans s.clock s.reads t.reads u.reads (s.heap q) (t.heap q) (u.heap q) g.reads_on
        h.reads_on (g.eased q)
        (subst (λ c. Eased c t.reads u.reads (t.heap q) (u.heap q)) g.clock_same (h.eased q));
  fresh_same = h.fresh_same ∙ g.fresh_same;
  clock_same = h.clock_same ∙ g.clock_same;
  reads_on = omega (arith, g.reads_on, h.reads_on);
}

-- What looks never change, a field that closing a circuit keeps.
pub Eases-field {ℓ} :
    {A : Type ℓ} (f : Backend → A)
    → ((b : Backend) → f (reset b) ≡ f b)
    → (s s' : Store) (q : Addr) → Eases s s'
    → f (s'.heap q) ≡ f (s.heap q)
Eases-field f k s s' q e = elim (e.eased q) [
  | inl same ↦ ap f same
  | inr (late, closed) ↦ ap f closed ∙ k (s.heap q)
]

-- `look` is `IsCircuitOpen` at the clock's next reading.
pub look-is_circuit_open :
    (p : Addr) (s : Store)
    → ((look p s).0 ≡ (is_circuit_open (s.heap p) (s.clock s.reads)).0)
      × ((look p s).1.heap p ≡ (is_circuit_open (s.heap p) (s.clock s.reads)).1)
unfolding look is_circuit_open
look-is_circuit_open p s = ground arith

pub look_other : (p q : Addr) (s : Store) → p ≢ q → (look p s).1.heap q ≡ s.heap q
unfolding look
look_other p q s h = ground arith

-- The clock is read once if the circuit is open, and the backend is closed only if that reading is late.
look_cases :
    (p : Addr) (s : Store)
    → (((look p s).1.heap p ≡ s.heap p) × (s.reads ≤ (look p s).1.reads))
      ⊎ (((look p s).1.reads ≡ suc s.reads)
          × ((s.heap p).circuit_open ≡ true)
          × (ltb_ℤ
                (s.heap p).circuit_timeout
                (time_sub (s.clock s.reads) (s.heap p).last_error_time)
              ≡ true)
          × ((look p s).1.heap p ≡ reset (s.heap p)))
unfolding look is_circuit_open
look_cases p s = elim (Bool-cases (s.heap p).circuit_open) [
  | inl o ↦
      let late =
        ltb_ℤ (s.heap p).circuit_timeout (time_sub (s.clock s.reads) (s.heap p).last_error_time) in
      elim (Bool-cases late) [
        | inl t ↦ inr (ground arith, o, t, ground arith)
        | inr t ↦ inl (ground arith, ground arith)
      ]
  | inr c ↦ inl (ground arith, ground arith)
]

look_reads : (p : Addr) (s : Store) → s.reads ≤ (look p s).1.reads
unfolding look
look_reads p s = ground arith

look-Eased :
    (p q : Addr) (s : Store)
    → Eased s.clock s.reads (look p s).1.reads (s.heap q) ((look p s).1.heap q)
look-Eased p q s = elim (ℕ_discrete p q) [
  | yes e ↦
      subst (λ r. Eased s.clock s.reads (look p s).1.reads (s.heap r) ((look p s).1.heap r)) e
        (elim (look_cases p s) [
          | inl (same, _) ↦ inl same
          | inr (once, o, t, closed) ↦
              inr ((s.reads, omega arith, omega (arith, once), o, t), closed)
        ])
  | no n ↦ inl (look_other p q s n)
]

pub look-Eases : (p : Addr) (s : Store) → Eases s (look p s).1
unfolding look
look-Eases p s = record {
  eased = λ q. look-Eased p q s;
  fresh_same = ground arith;
  clock_same = ground arith;
  reads_on = look_reads p s;
}

pub look-closed : (p : Addr) (s : Store) → ((look p s).1.heap p).circuit_open ≡ (look p s).0
unfolding look is_circuit_open
look-closed p s = ground arith

pub is_available-Eases : (p : Addr) (s : Store) → Eases s (is_available p s).1
unfolding is_available
is_available-Eases p s = elim (Bool-cases (is_alive (s.heap p))) [
  | inl up ↦ rw up (look-Eases p s)
  | inr down ↦ rw down (Eases-refl s)
]

pub is_available_up :
    (p : Addr) (s : Store)
    → (is_available p s).0 ≡ true
    → (((is_available p s).1.heap p).alive ≡ true)
      × (((is_available p s).1.heap p).circuit_open ≡ false)
unfolding is_available is_alive look is_circuit_open
is_available_up p s h = ground arith

pub is_available_ready :
    (p : Addr) (s : Store)
    → (s.heap p).alive ≡ true
    → (s.heap p).circuit_open ≡ false
    → is_available p s ≡ (true, s)
unfolding is_available is_alive look
is_available_ready p s up closed = rw (up, closed)

-- A backend that can be sent a request.
abbrev pub IsReady : Backend → Type 0
IsReady b = (b.alive ≡ true) × (b.circuit_open ≡ false)

pub ready_Eases : (s s' : Store) (q : Addr) → Eases s s' → IsReady (s.heap q) → s'.heap q ≡ s.heap q
ready_Eases s s' q e r = elim (e.eased q) [
  | inl same ↦ same
  | inr (late, closed) ↦ absurd (cc (late.3, r.1))
]

-- Looks never take a ready backend away.
pub Eases-IsReady :
    (s s' : Store) (p : Addr) → Eases s s' → IsReady (s.heap p) → IsReady (s'.heap p)
Eases-IsReady s s' p e r = rw (ready_Eases s s' p e r) r

pub Eases-alive : (s s' : Store) (p : Addr) → Eases s s' → (s'.heap p).alive ≡ (s.heap p).alive
Eases-alive s s' p e = Eases-field (λ (b : Backend). b.alive) (λ b. refl) s s' p e
