-- ===== src/Pool.antt =====
-- Go-LoadBalancer/serverpool.go: the pool of backends, and how it chooses one. The log lines are left
-- out, but not the looks at circuits that are made for them, since a look may close a circuit.
pub mod Survey
pub mod Choice
pub mod Answers
pub mod Down
pub mod Alternatives
use Prim.Native.String.{String, ◌++◌ as ◌^^◌}
use load_balancer_comparison.Base.{
  ℕ, suc, ◌+◌, ◌==◌, Bool, true, false, not, ◌&&◌, Option, none, some, List, [], ◌∷◌, ◌++◌, length,
  if◌then◌else◌,
}
use load_balancer_comparison.Backend.{Addr, Backend, is_alive}
use load_balancer_comparison.Store.{Store, look, is_available}
use load_balancer_comparison.Algorithms.{Algorithm, next_backend}

pub record ServerPool : Type 0 where
  pub backends : List Addr
  pub algorithm : Algorithm

unfoldable pub new_server_pool : Algorithm → ServerPool
new_server_pool algorithm = record { backends = []; algorithm = algorithm }

unfoldable pub add_backend : ServerPool → Addr → ServerPool
add_backend pool backend = record pool { backends = pool.backends ++ backend ∷ [] }

unfoldable pub get_backends : ServerPool → List Addr
get_backends pool = pool.backends

-- Why a backend is not available: its circuit is looked at once more for the text.
unfoldable pub reason : Addr → Store → String × Store
reason p s =
    let (open_now, s') = look p s in
    if is_alive (s.heap p)
    then (if open_now then "CIRCUIT_OPEN" else "DOWN", s')
    else (if open_now then "DOWN+CIRCUIT_OPEN" else "DOWN", s')

-- The loop of `NextAvailablePeer`: the available backends, and the others with the reasons.
unfoldable pub survey : List Addr → Store → (List Addr × List String) × Store
survey [] s = (([], []), s)
survey (p ∷ ps) s =
    let (up, s1) = is_available p s in
    let (why, s2) = if up then ("", s1) else reason p s1 in
    let ((available, reasons), s3) = survey ps s2 in
    if up
    then ((p ∷ available, reasons), s3)
    else ((available, ((s.heap p).url ^^ ":" ^^ why) ∷ reasons), s3)

-- The result of a choice: the backend, the pool with its algorithm's new state, and the store.
abbrev pub Chosen : Type 0
Chosen = Option Addr × ServerPool × Store

unfoldable pub next_available_peer : ServerPool → Store → Chosen
next_available_peer pool s =
    let ((available, _), s') = survey pool.backends s in
    let (backend, algorithm') = next_backend pool.algorithm s'.heap available in
    if length available == 0
    then (none, pool, s')
    else (backend, record pool { algorithm = algorithm' }, s')

-- The test of the loop below: the excluded backend is not looked at.
unfoldable pub is_alternative : Addr → Addr → Store → Bool × Store
is_alternative p exclude s = if p == exclude then (false, s) else is_available p s

unfoldable pub find_alternative_backend : List Addr → Addr → Store → Option Addr × Store
find_alternative_backend [] exclude s = (none, s)
find_alternative_backend (p ∷ ps) exclude s =
    let (up, s') = is_alternative p exclude s in
    let rest = find_alternative_backend ps exclude s' in if up then (some p, s') else rest

-- What `NextPeer` does with the backend that its algorithm has chosen.
unfoldable pub check_choice : List Addr → Option Addr → Store → Option Addr × Store
check_choice backends none s = (none, s)
check_choice backends (some p) s =
    let (up, s1) = is_available p s in
    let (open_now, s2) = look p s1 in
    if up
    then (some p, s1)
    else if open_now
    then find_alternative_backend backends p s2
    else (some p, s2)

unfoldable pub next_peer : ServerPool → Store → Chosen
next_peer pool s =
    let (backend, algorithm') = next_backend pool.algorithm s.heap pool.backends in
    let (choice, s') = check_choice pool.backends backend s in
    (choice, record pool { algorithm = algorithm' }, s')

-- The loop of `GetAvailableBackends`.
unfoldable pub available_among : List Addr → Store → List Addr × Store
available_among [] s = ([], s)
available_among (p ∷ ps) s =
    let (up, s1) = is_available p s in
    let (available, s2) = available_among ps s1 in (if up then p ∷ available else available, s2)

unfoldable pub get_available_backends : ServerPool → Store → List Addr × Store
unfolding available_among
get_available_backends pool s = available_among pool.backends s

pub record Summary : Type 0 where
  pub total : ℕ
  pub alive : ℕ
  pub available : ℕ
  pub circuits_closed : ℕ

-- The loop of `GetPoolSummary`.
unfoldable pub summarise : List Addr → Summary → Store → Summary × Store
summarise [] counts s = (counts, s)
summarise (p ∷ ps) counts s =
    let (up, s1) = is_available p s in
    let (open_now, s2) = look p s1 in
    summarise ps
      (record counts {
        alive = if is_alive (s.heap p) then suc counts.alive else counts.alive;
        available = if up then suc counts.available else counts.available;
        circuits_closed =
            if not open_now then suc counts.circuits_closed else counts.circuits_closed;
      })
      s2

unfoldable pub get_pool_summary : ServerPool → Store → Summary × Store
get_pool_summary pool s =
    summarise pool.backends
      (record { total = length pool.backends; alive = 0; available = 0; circuits_closed = 0 }) s

unfoldable pub join_strings : List String → String → String
join_strings [] separator = ""
join_strings (x ∷ []) separator = x
join_strings (x ∷ y ∷ ys) separator = join_strings ((x ^^ separator ^^ y) ∷ ys) separator
