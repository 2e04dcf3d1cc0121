-- ===== src/Health.antt =====
-- Go-LoadBalancer/serverpool.go: the health check. Every backend has a goroutine that asks it for its
-- health and marks it; the goroutines run beside each other and beside the requests, in any order of
-- steps. The log lines are left out, but not the looks at circuits that are made for them.
pub mod Marks
pub mod Ends
pub mod Rounds
use Prim.Native.String.{String, ◌++◌ as ◌^^◌}
use load_balancer_comparison.Base.{
  ◌*◌, ◌-◌, ℕ, zero, suc, ltb, leb, Bool, true, false, ◌&&◌, Option, none, some, List, [], ◌∷◌, map,
  if◌then◌else◌,
}
use load_balancer_comparison.Base.Int.{ℤ, pos, negsuc, wrap64, leb_ℤ}
use load_balancer_comparison.Backend.{
  second, Addr, is_alive, set_alive, record_success, add_connection, remove_connection,
}
use load_balancer_comparison.Store.{Store, modify, fail, look, is_available}
use load_balancer_comparison.Pool.{ServerPool, get_backends, get_pool_summary}
use load_balancer_comparison.Balancer.{Outcome, responded, failed}

abbrev pub is_ok : Outcome → Bool
is_ok (responded code) = leb 200 code && ltb code 300
is_ok (failed e) = false

-- The root address is asked only if the request for the health address has failed.
abbrev pub or_root : Outcome → Outcome → Outcome
or_root (responded code) root = responded code
or_root (failed e) root = root

-- `get` is what `client.Get` answers, and `failed` when it times out.
unfoldable pub is_backend_alive : (String → Outcome) → String → Bool
is_backend_alive get url = is_ok (or_root (get (url ^^ "/health")) (get url))

-- How far a goroutine of `HealthCheck` is: what its probe has found (`alive`), then also what the
-- backend was marked before (`wasAlive`).
pub data Phase : Type 0 where
  probing : Phase
  answered : Bool → Phase
  noted : Bool → Bool → Phase
  observed : Bool → Bool → Phase
  marked : Bool → Bool → Phase
  reported : Bool → Bool → Phase
  advised : Bool → Bool → Phase
  weighed : Bool → Bool → Phase
  finished : Phase

pub record Task : Type 0 where
  pub backend : Addr
  pub phase : Phase

abbrev pub same : Bool → Bool → Bool
same true b = b
same false b = if b then false else true

-- What a request does to a backend meanwhile.
pub data Call : Type 0 where
  looks : Call
  fails : Call
  succeeds : Call
  connects : Call
  disconnects : Call

unfoldable pub perform : Call → Addr → Store → Store
unfolding look fail modify
perform looks p s = (look p s).1
perform fails p s = fail p s
perform succeeds p s = modify record_success p s
perform connects p s = modify add_connection p s
perform disconnects p s = modify remove_connection p s

-- What runs next: the goroutine at this position, or a call of some request.
pub data Event : Type 0 where
  turn : ℕ → Event
  traffic : Call → Addr → Event

abbrev pub start_task : Addr → Task
start_task p = record { backend = p; phase = probing }

abbrev pub is_finished : Phase → Bool
is_finished finished = true
is_finished phase = false

-- `wg.Wait` lets the caller go on when every goroutine is done.
unfoldable pub all_done : List Task → Bool
all_done [] = true
all_done (t ∷ ts) = is_finished t.phase && all_done ts

-- `network p` answers the goroutine that checks `p`.
module _ (network : Addr → String → Outcome) where
  -- One step of a goroutine, up to its next access to the backend.
  unfoldable pub advance : Addr → Phase → Store → Phase × Store
  advance p probing s = (answered (is_backend_alive (network p) (s.heap p).url), s)
  advance p (answered alive) s = (noted alive (is_alive (s.heap p)), s)
  advance p (noted alive was) s = (observed alive was, (look p s).1)
  advance p (observed alive was) s = (marked alive was, modify (λ b. set_alive b alive) p s)
  advance p (marked alive was) s = (reported alive was, (look p s).1)
  advance p (reported alive was) s = (advised alive was, if alive then (look p s).1 else s)
  advance p (advised alive was) s = (weighed alive was, (is_available p s).1)
  advance p (weighed alive was) s = (finished, if same alive was then (look p s).1 else s)
  advance p finished s = (finished, s)

  unfoldable pub take_turn : ℕ → List Task → Store → List Task × Store
  unfolding advance
  take_turn i [] s = ([], s)
  take_turn zero (t ∷ ts) s =
      let (phase, s') = advance t.backend t.phase s in (record t { phase = phase } ∷ ts, s')
  take_turn (suc i) (t ∷ ts) s = let (ts', s') = take_turn i ts s in (t ∷ ts', s')

  unfoldable pub happen : Event → List Task → Store → List Task × Store
  unfolding take_turn
  happen (turn i) ts s = take_turn i ts s
  happen (traffic c p) ts s = (ts, perform c p s)

  unfoldable pub run_tasks : List Event → List Task → Store → List Task × Store
  unfolding happen
  run_tasks [] ts s = (ts, s)
  run_tasks (e ∷ es) ts s = let (ts', s') = happen e ts s in run_tasks es ts' s'

  -- `none`: the schedule ends before the goroutines do.
  unfoldable pub health_check : List Event → ServerPool → Store → Option Store
  unfolding run_tasks
  health_check events pool s =
      let (ts, s') = run_tasks events (map start_task (get_backends pool)) s in
      if all_done ts then some (get_pool_summary pool s').1 else none

-- One check: its schedule, which may go on with requests after it, and the answers to its probes.
abbrev pub Check : Type 0
Check = List Event × (Addr → String → Outcome)

unfoldable pub health_checks : List Check → ServerPool → Store → Option Store
unfolding health_check
health_checks [] pool s = some s
health_checks ((events, network) ∷ checks) pool s = elim (health_check network events pool s) [
  | none ↦ none
  | some s' ↦ health_checks checks pool s'
]

-- A number of seconds as a `time.Duration`.
abbrev pub in_seconds : ℤ → ℤ
in_seconds (pos n) = wrap64 (pos (n * second))
in_seconds (negsuc n) = wrap64 (negsuc (suc n * second - 1))

-- The first check, and one for each tick. `time.NewTicker` panics (`none`) on an interval that is not
-- positive.
unfoldable pub health_checking : ℤ → Check → List Check → ServerPool → Store → Option Store
unfolding health_checks
health_checking interval first ticks pool s =
    if leb_ℤ (in_seconds interval) (pos 0) then none else health_checks (first ∷ ticks) pool s
