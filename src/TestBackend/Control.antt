-- ===== src/TestBackend/Control.antt =====
-- TestBackend/handlers.go: what the control endpoint makes a backend do.
use Prim.Native.String.{String}
use text.Mathlib.Text.{◌==◌ as str_eq}
use load_balancer_comparison.Base.{
  not, ◌||◌, if◌then◌else◌, ◌∙◌, Bool-cases, Option-cases, ℕ, ◌≡◌, refl, inl, inr, Bool, false,
  Option, some, none, List, [], ◌∷◌, All, arith,
}
use load_balancer_comparison.Base.Int.{ℤ}
use load_balancer_comparison.TestBackend.{
  Backend, FailureMode, should_fail_request, should_fail, log_request, get_delay,
}
use load_balancer_comparison.TestBackend.Handlers.{
  controlled, ControlRequest, no_failure, mode_or, act, handle_control, handle_health, handle_root,
  health_check_fails_now,
}
use load_balancer_comparison.TestBackend.Requests.{
  Request, root, health_check, info_page, control, unless_panic, serve, serve_all,
}

pub fails_same :
    {F : Type 0} (zero_rate : F) (o : Option (FailureMode F))
    → (mode_or o (no_failure zero_rate)).health_check_fails ≡ health_check_fails_now o
fails_same zero_rate none = refl
fails_same zero_rate (some m) = refl

module _ (F : Type 0) (lower : F → F → Bool) (zero_rate full_rate : F) where
  -- The request does not tell the backend to recover.
  abbrev pub KeepsFailing : Request F → Type 0
  KeepsFailing (control method (some req)) = str_eq req.action "recover" ≡ false
  KeepsFailing (control method none) = Unit
  KeepsFailing (root draw raw) = Unit
  KeepsFailing health_check = Unit
  KeepsFailing info_page = Unit

  act-is_healthy :
      (req : ControlRequest F) (m : FailureMode F) (b b' : Backend F)
      → str_eq req.action "recover" ≡ false
      → b.is_healthy ≡ false
      → act F lower zero_rate full_rate req m b ≡ some b'
      → b'.is_healthy ≡ false
  unfolding act
  act-is_healthy req m b b' h down e = ground arith

  controlled-is_healthy :
      (action : String) (m : FailureMode F) (b : Backend F) (o : Option (Backend F))
      → b.is_healthy ≡ false
      → ((b' : Backend F) → o ≡ some b' → b'.is_healthy ≡ false)
      → (controlled action m b o).1.is_healthy ≡ false
  controlled-is_healthy action m b none h k = h
  controlled-is_healthy action m b (some b') h k = k b' refl

  handle_root-is_healthy :
      (draw : F) (raw : ℕ) (b : Backend F)
      → (unless_panic (handle_root F lower zero_rate full_rate draw raw b) b).1.is_healthy
        ≡ b.is_healthy
  unfolding handle_root log_request
  handle_root-is_healthy draw raw b =
      elim (Bool-cases (should_fail_request F lower zero_rate draw b)) [
        | inl fails ↦ rw fails refl
        | inr works ↦ rw works (elim (Option-cases (get_delay raw b)) [
          | inl panics ↦ rw panics refl
          | inr (d, e) ↦ rw e refl
        ])
      ]

  handle_health-is_healthy :
      (b : Backend F) → (handle_health F lower zero_rate full_rate b).1.is_healthy ≡ b.is_healthy
  unfolding handle_health log_request
  handle_health-is_healthy b = ground arith

  serve-is_healthy :
      (r : Request F) (b : Backend F)
      → b.is_healthy ≡ false
      → KeepsFailing r
      → (serve F lower zero_rate full_rate r b).1.is_healthy ≡ false
  unfolding serve handle_control
  serve-is_healthy (root draw raw) b h n = handle_root-is_healthy draw raw b ∙ h
  serve-is_healthy health_check b h n = handle_health-is_healthy b ∙ h
  serve-is_healthy info_page b h n = h
  serve-is_healthy (control method none) b h n = ground arith
  serve-is_healthy (control method (some req)) b h n = elim (Bool-cases (str_eq method "POST")) [
    | inl posted ↦ rw posted (
        let m : FailureMode F = mode_or b.failure_mode (no_failure zero_rate) in
        controlled-is_healthy req.action m b (act F lower zero_rate full_rate req m b) h
          (λ b' e. act-is_healthy req m b b' n h e))
    | inr other ↦ rw other h
  ]

  pub serve_all-is_healthy :
      (requests : List (Request F)) (b : Backend F)
      → b.is_healthy ≡ false
      → All KeepsFailing requests
      → (serve_all F lower zero_rate full_rate requests b).is_healthy ≡ false
  unfolding serve_all
  serve_all-is_healthy [] b h n = h
  serve_all-is_healthy (r ∷ requests) b h n =
      serve_all-is_healthy requests (serve F lower zero_rate full_rate r b).1
        (serve-is_healthy r b h n.0) n.1

  -- The backend after a request to the control endpoint.
  abbrev pub post : String → F → ℤ → Backend F → Backend F
  post action rate delay b =
      (handle_control F lower zero_rate full_rate "POST"
        (some (record { action = action; error_rate = rate; health_delay = delay })) b).1

  fail_health-is_healthy :
      (rate : F) (delay : ℤ) (b : Backend F) → (post "fail_health" rate delay b).is_healthy ≡ false
  unfolding handle_control act
  fail_health-is_healthy rate delay b = refl

  pub health_status :
      (b : Backend F)
      → (handle_health F lower zero_rate full_rate b).0.status
        ≡ (if health_check_fails_now b.failure_mode || not b.is_healthy then 503 else 200)
  unfolding handle_health
  health_status b = ground arith

  unhealthy_status :
      (b : Backend F)
      → b.is_healthy ≡ false
      → (handle_health F lower zero_rate full_rate b).0.status ≡ 503
  unhealthy_status b h = rw (health_status b) (ground arith)

  -- Once the health check of a backend was told to fail, it answers 503 whatever else the backend is
  -- asked, until it is told to recover.
  pub fail_health_lasts :
      (rate : F) (delay : ℤ) (b : Backend F) (requests : List (Request F))
      → All KeepsFailing requests
      → (handle_health F lower zero_rate full_rate (
          serve_all F lower zero_rate full_rate requests
            (post "fail_health" rate delay b))).0.status
        ≡ 503
  fail_health_lasts rate delay b requests n =
      unhealthy_status
        (serve_all F lower zero_rate full_rate requests (post "fail_health" rate delay b))
        (serve_all-is_healthy requests (post "fail_health" rate delay b)
          (fail_health-is_healthy rate delay b) n)

  -- A backend that is told to recover is healthy again whatever it was told before: its health check
  -- answers 200, and its requests fail as its own error rate has it.
  pub recover_lem :
      (rate draw : F) (delay : ℤ) (b : Backend F)
      → let b' = post "recover" rate delay b in
        ((handle_health F lower zero_rate full_rate b').0.status ≡ 200)
        × (should_fail_request F lower zero_rate draw b' ≡ lower draw b.error_rate)
  unfolding handle_health handle_control act should_fail_request should_fail
  recover_lem rate draw delay b = (refl, refl)
