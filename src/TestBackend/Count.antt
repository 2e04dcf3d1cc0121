-- ===== src/TestBackend/Count.antt =====
-- TestBackend/backend.go: what `GetRequestCount` counts.
use Prim.Native.String.{String}
use text.Mathlib.Text.{◌==◌ as str_eq}
use load_balancer_comparison.Base.{
  not, ◌||◌, Bool-cases, Option-cases, ℕ, suc, ◌+◌, ◌<◌, ◌≤◌, ◌^◌, ◌≡◌, ◌∙◌, refl, inl, inr, Bool,
  Option, some, none, List, [], ◌∷◌, arith, length, ap,
}
use load_balancer_comparison.Base.Int.{pos, wrap64_of_InInt64, ◌+ℤ◌}
use load_balancer_comparison.TestBackend.{
  Backend, FailureMode, should_fail_request, log_request, get_delay,
}
use load_balancer_comparison.TestBackend.Handlers.{
  health_check_fails_now, Reply, ControlRequest, handle_control, handle_health, handle_root,
  handle_info, act, mode_or, no_failure,
}
use load_balancer_comparison.TestBackend.Requests.{
  Request, root, health_check, info_page, control, serve, serve_all,
}

module _ (F : Type 0) (lower : F → F → Bool) (zero_rate full_rate : F) where
  abbrev is_reply : Option (Reply F) → ℕ
  is_reply none = 0
  is_reply (some reply) = 1

  -- 1 for a request that is answered and is not for the control endpoint.
  abbrev counts : Request F → Backend F → ℕ
  counts (control method body) b = 0
  counts r b = is_reply (serve F lower zero_rate full_rate r b).0

  -- How many of the requests are answered and are not for the control endpoint.
  abbrev pub counted : List (Request F) → Backend F → ℕ
  counted [] b = 0
  counted (r ∷ requests) b = counts r b + counted requests (serve F lower zero_rate full_rate r b).1

  act-request_count :
      (req : ControlRequest F) (m : FailureMode F) (b b' : Backend F)
      → act F lower zero_rate full_rate req m b ≡ some b'
      → b'.request_count ≡ b.request_count
  unfolding act
  act-request_count req m b b' e = ground arith

  control-request_count :
      (method : String) (body : Option (ControlRequest F)) (b : Backend F)
      → (handle_control F lower zero_rate full_rate method body b).1.request_count ≡ b.request_count
  unfolding handle_control
  control-request_count method none b = ground arith
  control-request_count method (some req) b = elim (Bool-cases (str_eq method "POST")) [
    | inl posted ↦ rw posted (
        let m : FailureMode F = mode_or b.failure_mode (no_failure zero_rate) in
        elim (Option-cases (act F lower zero_rate full_rate req m b)) [
          | inl unknown ↦ rw unknown refl
          | inr (b', e) ↦ rw e (act-request_count req m b b' e)
        ])
    | inr other ↦ rw other refl
  ]

  log_request-request_count :
      (b : Backend F) (n : ℕ)
      → b.request_count ≡ pos n
      → suc n < 2 ^ 63
      → (log_request b).request_count ≡ pos (n + 1)
  unfolding log_request ◌+ℤ◌
  log_request-request_count b n h fits =
      rw h (rw (wrap64_of_InInt64 (pos n +ℤ pos 1) (ground arith, ground arith)) (ground arith))

  root-request_count :
      (draw : F) (raw : ℕ) (b : Backend F) (n : ℕ)
      → b.request_count ≡ pos n
      → suc n < 2 ^ 63
      → (serve F lower zero_rate full_rate (root draw raw) b).1.request_count
        ≡ pos (n + counts (root draw raw) b)
  unfolding serve handle_root
  root-request_count draw raw b n h fits =
      elim (Bool-cases (should_fail_request F lower zero_rate draw b)) [
        | inl fails ↦ rw fails (log_request-request_count b n h fits)
        | inr works ↦ rw works (elim (Option-cases (get_delay raw b)) [
          | inl panics ↦ rw panics (h ∙ ap pos (omega arith))
          | inr (d, e) ↦ rw e (log_request-request_count b n h fits)
        ])
      ]

  serve-request_count :
      (r : Request F) (b : Backend F) (n : ℕ)
      → b.request_count ≡ pos n
      → suc n < 2 ^ 63
      → (serve F lower zero_rate full_rate r b).1.request_count ≡ pos (n + counts r b)
  unfolding serve handle_health handle_info
  serve-request_count (root draw raw) b n h fits = root-request_count draw raw b n h fits
  serve-request_count health_check b n h fits =
      elim (Bool-cases (health_check_fails_now b.failure_mode || not b.is_healthy)) [
        | inl fails ↦ rw fails (log_request-request_count b n h fits)
        | inr works ↦ rw works (log_request-request_count b n h fits)
      ]
  serve-request_count info_page b n h fits = log_request-request_count b n h fits
  serve-request_count (control method body) b n h fits =
      control-request_count method body b ∙ h ∙ ap pos (omega arith)

  is_reply-le : (o : Option (Reply F)) → is_reply o ≤ 1
  is_reply-le none = omega arith
  is_reply-le (some reply) = omega arith

  counts-le : (r : Request F) (b : Backend F) → counts r b ≤ 1
  counts-le (control method body) b = omega arith
  counts-le (root draw raw) b = is_reply-le (serve F lower zero_rate full_rate (root draw raw) b).0
  counts-le health_check b = is_reply-le (serve F lower zero_rate full_rate health_check b).0
  counts-le info_page b = is_reply-le (serve F lower zero_rate full_rate info_page b).0

  -- As long as it does not overflow, the count of requests is the number of those that were answered
  -- and were not for the control endpoint: a request whose handler panics is not counted.
  pub serve_all-request_count :
      (requests : List (Request F)) (b : Backend F) (n : ℕ)
      → b.request_count ≡ pos n
      → n + length requests < 2 ^ 63
      → (serve_all F lower zero_rate full_rate requests b).request_count
        ≡ pos (n + counted requests b)
  unfolding serve_all
  serve_all-request_count [] b n h fits = h ∙ ap pos (omega arith)
  serve_all-request_count (r ∷ requests) b n h fits =
      let b' : Backend F = (serve F lower zero_rate full_rate r b).1 in
      serve_all-request_count requests b' (n + counts r b)
        (serve-request_count r b n h (omega arith)) (omega (arith, counts-le r b))
      ∙ ap pos (omega arith)
