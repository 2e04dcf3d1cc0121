-- ===== src/Stats/Counts.antt =====
-- serverpool.go: the counts of a report agree with what it lists.
use load_balancer_comparison.Base.{
  ◌≡◌, refl, inl, inr, true, false, not, ℕ, ◌≤◌, ◌+◌, List, [], ◌∷◌, length, Bool-cases, arith,
}
use load_balancer_comparison.Backend.{Addr, is_alive}
use load_balancer_comparison.Store.{Store, look, is_available}
use load_balancer_comparison.Store.Looks.{is_available_up}
use load_balancer_comparison.Pool.{ServerPool, Summary, summarise, get_pool_summary}
use load_balancer_comparison.Stats.{one_if}

pub available_is_alive :
    (p : Addr) (s : Store) → (is_available p s).0 ≡ true → is_alive (s.heap p) ≡ true
unfolding is_available
available_is_alive p s h = ground arith

-- A circuit that is closed is seen closed.
pub look_ready : (p : Addr) (s : Store) → (s.heap p).circuit_open ≡ false → (look p s).0 ≡ false
unfolding look
look_ready p s h = ground arith

pub available_not_open :
    (p : Addr) (s : Store) → (is_available p s).0 ≡ true → (look p (is_available p s).1).0 ≡ false
available_not_open p s h = look_ready p (is_available p s).1 (is_available_up p s h).1

-- The counts of a loop so far.
abbrev Ordered : Summary → Type 0
Ordered c = (c.available ≤ c.alive) × (c.available ≤ c.circuits_closed)

abbrev Counted : ℕ → Summary → Summary → Type 0
Counted n c c' =
    (c'.total ≡ c.total) × (c'.alive ≤ c.alive + n) × (c'.circuits_closed ≤ c.circuits_closed + n)

count_one :
    (p : Addr) (s : Store) (c : Summary)
    → Ordered c
    → Ordered (record c {
      alive = one_if (is_alive (s.heap p)) c.alive;
      available = one_if (is_available p s).0 c.available;
      circuits_closed = one_if (not (look p (is_available p s).1).0) c.circuits_closed;
    })
count_one p s c h = elim (Bool-cases (is_available p s).0) [
  | inl up ↦
      rw (up, available_is_alive p s up, available_not_open p s up) (omega arith, omega arith)
  | inr down ↦ ground arith
]

summarise_counts :
    (ps : List Addr) (c : Summary) (s : Store)
    → Ordered c
    → Ordered (summarise ps c s).0 × Counted (length ps) c (summarise ps c s).0
unfolding summarise
summarise_counts [] c s h = (h, (refl, omega arith, omega arith))
summarise_counts (p ∷ ps) c s h =
    let s1 : Store = (is_available p s).1 in
    let c' : Summary = record c {
      alive = one_if (is_alive (s.heap p)) c.alive;
      available = one_if (is_available p s).0 c.available;
      circuits_closed = one_if (not (look p s1).0) c.circuits_closed;
    } in
    let ordered : Ordered c' = count_one p s c h in
    let (ordered', (same_total, alive_le, closed_le)) =
      summarise_counts ps c' (look p s1).1 ordered in
    (ordered', (same_total, ground arith, ground arith))

-- In a summary of the pool the available backends are among the live ones and among those with a
-- closed circuit, and both of these are among all.
pub get_pool_summary_bounds :
    (pool : ServerPool) (s : Store)
    → let c = (get_pool_summary pool s).0 in
      (c.total ≡ length pool.backends)
      × (c.available ≤ c.alive)
      × (c.available ≤ c.circuits_closed)
      × (c.alive ≤ c.total)
      × (c.circuits_closed ≤ c.total)
unfolding get_pool_summary
get_pool_summary_bounds pool s =
    let start : Summary = record {
      total = length pool.backends;
      alive = 0;
      available = 0;
      circuits_closed = 0;
    } in
    let (ordered, (same_total, alive_le, closed_le)) =
      summarise_counts pool.backends start s (omega arith, omega arith) in
    (same_total, ordered.0, ordered.1, omega arith, omega arith)
