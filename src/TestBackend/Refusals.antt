-- ===== src/TestBackend/Refusals.antt =====
-- TestBackend/handlers.go: a backend that is told to fail its requests.
use Prim.Native.String.{String}
use mathlib.Core.Path.{subst}
use text.Mathlib.Text.{◌==◌ as str_eq}
use load_balancer_comparison.Base.{
  ◌*◌, sym, not, ◌||◌, if◌then◌else◌, ap, ◌∙◌, Bool-cases, Option-cases, ℕ, ◌≡◌, refl, inl, inr,
  Bool, true, false, Option, some, none, List, [], ◌∷◌, All, arith,
}
use load_balancer_comparison.Base.Int.{ℤ, pos, pos_part, wrap64, ltb_ℤ}
use load_balancer_comparison.TestBackend.{
  Backend, FailureMode, should_fail_request, log_request, get_delay,
}
use load_balancer_comparison.TestBackend.Handlers.{
  controlled, ControlRequest, no_failure, mode_or, act, handle_control, handle_health, handle_root,
}
use load_balancer_comparison.TestBackend.Requests.{
  reply_status, Request, root, health_check, info_page, control, unless_panic, serve, serve_all,
}
use load_balancer_comparison.TestBackend.Control.{post, health_status, fails_same}

some_same {ℓ} : {A : Type ℓ} {a b : A} → some a ≡ some b → a ≡ b
some_same h = cc

module _ (F : Type 0) (lower : F → F → Bool) (zero_rate full_rate : F) where
  -- The request tells the backend neither to recover nor to fail at another rate.
  abbrev pub KeepsRefusing : Request F → Type 0
  KeepsRefusing (control method (some req)) =
      (str_eq req.action "recover" ≡ false) × (str_eq req.action "fail_requests" ≡ false)
  KeepsRefusing (control method none) = Unit
  KeepsRefusing (root draw raw) = Unit
  KeepsRefusing health_check = Unit
  KeepsRefusing info_page = Unit

  -- The backend is to fail all requests.
  abbrev Refusing : Option (FailureMode F) → Type 0
  Refusing none = ⊥
  Refusing (some m) = (m.requests_fail ≡ true) × (m.partial_failure ≡ full_rate)

  became :
      (b b' : Backend F) (m : FailureMode F) (healthy : Bool)
      → Refusing (some m)
      → record b { failure_mode = some m; is_healthy = healthy } ≡ b'
      → Refusing b'.failure_mode
  became b b' m healthy h e = subst (λ (x : Backend F). Refusing x.failure_mode) e h

  act-Refusing :
      (req : ControlRequest F) (m : FailureMode F) (b b' : Backend F)
      → str_eq req.action "recover" ≡ false
      → str_eq req.action "fail_requests" ≡ false
      → Refusing (some m)
      → act F lower zero_rate full_rate req m b ≡ some b'
      → Refusing b'.failure_mode
  unfolding act
  act-Refusing req m b b' no_recovery no_rate h e =
      elim (Bool-cases (str_eq req.action "fail_health")) [
        | inl health ↦
            let m' : FailureMode F = record m { health_check_fails = true } in
            became b b' m' false h (some_same (rw health at e))
        | inr other ↦ elim (Bool-cases (str_eq req.action "slow")) [
          | inl slow ↦
              let m' : FailureMode F = record m {
                slow_responses = true;
                health_check_delay =
                    if ltb_ℤ (pos 0) req.health_delay
                    then wrap64 (pos (pos_part req.health_delay * 1_000_000))
                    else m.health_check_delay;
              } in
              became b b' m' b.is_healthy h (some_same (rw (other, no_rate, slow) at e))
          | inr unknown ↦ absurd (cc (rw (other, no_rate, unknown, no_recovery) at e))
        ]
      ]

  controlled-Refusing :
      (action : String) (m : FailureMode F) (b : Backend F) (o : Option (Backend F))
      → Refusing (some m)
      → ((b' : Backend F) → o ≡ some b' → Refusing b'.failure_mode)
      → Refusing (controlled action m b o).1.failure_mode
  controlled-Refusing action m b none h k = h
  controlled-Refusing action m b (some b') h k = k b' refl

  mode_or-Refusing :
      (o : Option (FailureMode F)) (m : FailureMode F) → Refusing o → Refusing (some (mode_or o m))
  mode_or-Refusing none m h = absurd h
  mode_or-Refusing (some m') m h = h

  handle_root-failure_mode :
      (draw : F) (raw : ℕ) (b : Backend F)
      → (unless_panic (handle_root F lower zero_rate full_rate draw raw b) b).1.failure_mode
        ≡ b.failure_mode
  unfolding handle_root log_request
  handle_root-failure_mode draw raw b =
      elim (Bool-cases (should_fail_request F lower zero_rate draw b)) [
        | inl fails ↦ rw fails refl
        | inr works ↦ rw works (elim (Option-cases (get_delay raw b)) [
          | inl panics ↦ rw panics refl
          | inr (d, e) ↦ rw e refl
        ])
      ]

  handle_health-failure_mode :
      (b : Backend F)
      → (handle_health F lower zero_rate full_rate b).1.failure_mode ≡ b.failure_mode
  unfolding handle_health log_request
  handle_health-failure_mode b = ground arith

  serve-Refusing :
      (r : Request F) (b : Backend F)
      → Refusing b.failure_mode
      → KeepsRefusing r
      → Refusing (serve F lower zero_rate full_rate r b).1.failure_mode
  unfolding serve handle_control
  serve-Refusing (root draw raw) b h n =
      subst Refusing (sym (handle_root-failure_mode draw raw b)) h
  serve-Refusing health_check b h n = subst Refusing (sym (handle_health-failure_mode b)) h
  serve-Refusing info_page b h n = h
  serve-Refusing (control method none) b h n = elim (Bool-cases (str_eq method "POST")) [
    | inl posted ↦ rw posted h
    | inr other ↦ rw other h
  ]
  serve-Refusing (control method (some req)) b h n = elim (Bool-cases (str_eq method "POST")) [
    | inl posted ↦ rw posted (
        let m : FailureMode F = mode_or b.failure_mode (no_failure zero_rate) in
        let kept : Refusing (some m) = mode_or-Refusing b.failure_mode (no_failure zero_rate) h in
        controlled-Refusing req.action m b (act F lower zero_rate full_rate req m b) kept
          (λ b' e. act-Refusing req m b b' n.0 n.1 kept e))
    | inr other ↦ rw other h
  ]

  serve_all-Refusing :
      (requests : List (Request F)) (b : Backend F)
      → Refusing b.failure_mode
      → All KeepsRefusing requests
      → Refusing (serve_all F lower zero_rate full_rate requests b).failure_mode
  unfolding serve_all
  serve_all-Refusing [] b h n = h
  serve_all-Refusing (r ∷ requests) b h n =
      serve_all-Refusing requests (serve F lower zero_rate full_rate r b).1
        (serve-Refusing r b h n.0) n.1

  Refusing-fails :
      (draw : F) (b : Backend F)
      → lower zero_rate full_rate ≡ true
      → lower draw full_rate ≡ true
      → Refusing b.failure_mode
      → should_fail_request F lower zero_rate draw b ≡ true
  unfolding should_fail_request
  Refusing-fails draw b positive below h = elim (Option-cases b.failure_mode) [
    | inl unset ↦ absurd (subst Refusing unset h)
    | inr (m, e) ↦
        let kept : Refusing (some m) = subst Refusing e h in
        rw (e, kept.0, kept.1, positive, below) refl
  ]

  failing_status :
      (draw : F) (raw : ℕ) (b : Backend F)
      → should_fail_request F lower zero_rate draw b ≡ true
      → reply_status (serve F lower zero_rate full_rate (root draw raw) b).0 ≡ some 500
  unfolding serve handle_root
  failing_status draw raw b e = rw e refl

  fail_requests-Refusing :
      (rate : F) (delay : ℤ) (b : Backend F)
      → lower zero_rate rate ≡ false
      → Refusing (post F lower zero_rate full_rate "fail_requests" rate delay b).failure_mode
  unfolding handle_control act
  fail_requests-Refusing rate delay b unset = (refl, rw unset refl)

  -- A backend that is told to fail requests without a rate fails every later one with 500, whatever
  -- else it is asked in between, until it is told to recover or to fail at another rate. `rand.Float64`
  -- must stay below 1.0. Its health check answers right after that as before.
  pub fail_requests_fails :
      (rate draw : F) (delay : ℤ) (raw : ℕ) (b : Backend F) (requests : List (Request F))
      → lower zero_rate rate ≡ false
      → lower zero_rate full_rate ≡ true
      → lower draw full_rate ≡ true
      → All KeepsRefusing requests
      → let b' = post F lower zero_rate full_rate "fail_requests" rate delay b in
        let later = serve_all F lower zero_rate full_rate requests b' in
        (reply_status (serve F lower zero_rate full_rate (root draw raw) later).0 ≡ some 500)
        × ((handle_health F lower zero_rate full_rate b').0.status
            ≡ (handle_health F lower zero_rate full_rate b).0.status)
  unfolding handle_control act
  fail_requests_fails rate draw delay raw b requests unset positive below keeps =
      let b' : Backend F = post F lower zero_rate full_rate "fail_requests" rate delay b in
      let later : Backend F = serve_all F lower zero_rate full_rate requests b' in
      (
        failing_status draw raw later (
            Refusing-fails draw later positive below
              (serve_all-Refusing requests b' (fail_requests-Refusing rate delay b unset) keeps)),
        health_status F lower zero_rate full_rate b'
            ∙ ap (λ fails. if fails || not b.is_healthy then 503 else 200)
                (fails_same zero_rate b.failure_mode)
            ∙ sym (health_status F lower zero_rate full_rate b),
      )
