-- ===== src/TestBackend/Requests.antt =====
-- TestBackend/main.go and handlers.go: the requests that reach a test backend, one after another.
use Prim.Native.String.{String}
use load_balancer_comparison.Base.{ℕ, Bool, Option, none, some, List, [], ◌∷◌}
use load_balancer_comparison.TestBackend.{Backend}
use load_balancer_comparison.TestBackend.Handlers.{
  Reply, ControlRequest, handle_root, handle_health, handle_info, handle_control,
}

-- The routes. A request to / comes with the random numbers that its handler draws, one to /control
-- with its method and body.
pub data Request (F : Type 0) : Type 0 where
  root : (draw : F) → (raw : ℕ) → Request F
  health_check : Request F
  info_page : Request F
  control : (method : String) → (body : Option (ControlRequest F)) → Request F

abbrev pub reply_status : {F : Type 0} → Option (Reply F) → Option ℕ
reply_status none = none
reply_status (some reply) = some reply.status

abbrev pub answered : {F : Type 0} → Reply F × Backend F → Option (Reply F) × Backend F
answered (reply, b) = (some reply, b)

-- A handler that panics leaves the backend as it was.
abbrev pub unless_panic :
    {F : Type 0} → Option (Reply F × Backend F) → Backend F → Option (Reply F) × Backend F
unless_panic none b = (none, b)
unless_panic (some r) b = answered r

module _ (F : Type 0) (lower : F → F → Bool) (zero_rate full_rate : F) where
  unfoldable pub serve : Request F → Backend F → Option (Reply F) × Backend F
  unfolding handle_root handle_health handle_info handle_control
  serve (root draw raw) b = unless_panic (handle_root F lower zero_rate full_rate draw raw b) b
  serve health_check b = answered (handle_health F lower zero_rate full_rate b)
  serve info_page b = answered (handle_info F lower zero_rate full_rate b)
  serve (control method body) b =
      answered (handle_control F lower zero_rate full_rate method body b)

  unfoldable pub serve_all : List (Request F) → Backend F → Backend F
  unfolding serve
  serve_all [] b = b
  serve_all (r ∷ requests) b = serve_all requests (serve r b).1
