-- ===== src/Stats/Report.antt =====
-- serverpool.go: the report of `GetStats` lists the backends of the pool as they are.
use load_balancer_comparison.Base.{
  ◌≡◌, refl, ◌⊎◌, inl, inr, true, false, ℕ, ◌≤◌, List, [], ◌∷◌, All, keep, length, Bool-cases,
  arith,
}
use load_balancer_comparison.Backend.{Addr, is_alive, get_connections}
use load_balancer_comparison.Store.{Store, look, is_available}
use load_balancer_comparison.Store.Looks.{
  Eases-field, Eases, Eases-refl, Eases-trans, Eases-alive, Eases-IsReady, look-Eases,
  is_available-Eases, is_available_up,
}
use load_balancer_comparison.Pool.{ServerPool, get_backends}
use load_balancer_comparison.Stats.{BackendInfo, describe, describe_all, get_stats, one_if}
use load_balancer_comparison.Stats.Counts.{available_is_alive, look_ready}

-- An object describes a backend of the store.
abbrev pub Describes : Store → Addr → BackendInfo → Type 0
Describes s p info =
    (info.url ≡ (s.heap p).url)
    × (info.weight ≡ (s.heap p).weight)
    × (info.connections ≡ (s.heap p).connections)
    × (info.alive ≡ (s.heap p).alive)

abbrev pub DescribesAll : Store → List Addr → List BackendInfo → Type 0
DescribesAll s [] [] = Unit
DescribesAll s [] (i ∷ infos) = ⊥
DescribesAll s (p ∷ ps) [] = ⊥
DescribesAll s (p ∷ ps) (i ∷ infos) = Describes s p i × DescribesAll s ps infos

-- What is said to be available is alive, and is said to have a closed circuit.
abbrev pub IsConsistent : BackendInfo → Type 0
IsConsistent info = (info.available ≡ false) ⊎ ((info.alive ≡ true) × (info.circuit_open ≡ false))

pub two_looks-Eases : (p : Addr) (s : Store) → Eases s (look p (is_available p s).1).1
two_looks-Eases p s = Eases-trans s _ _ (is_available-Eases p s) (look-Eases p (is_available p s).1)

describe-Eases : (p : Addr) (s : Store) → Eases s (describe p s).1
unfolding describe
describe-Eases p s =
    let s2 : Store = (look p (is_available p s).1).1 in
    Eases-trans s _ _ (two_looks-Eases p s)
      (Eases-trans s2 _ _ (look-Eases p s2) (look-Eases p (look p s2).1))

describe-Describes : (p : Addr) (s0 s : Store) → Eases s0 s → Describes s0 p (describe p s).0
unfolding describe get_connections is_alive
describe-Describes p s0 s e =
    let s2 : Store = (look p (is_available p s).1).1 in
    let e2 : Eases s0 s2 = Eases-trans s0 s s2 e (two_looks-Eases p s) in
    (
      Eases-field (λ b. b.url) (λ b. refl) s0 s2 p e2,
      Eases-field (λ b. b.weight) (λ b. refl) s0 s2 p e2,
      Eases-field (λ b. b.connections) (λ b. refl) s0 s2 p e2,
      Eases-alive s0 s p e,
    )

describe-IsConsistent : (p : Addr) (s : Store) → IsConsistent (describe p s).0
unfolding describe
describe-IsConsistent p s =
    let s1 : Store = (is_available p s).1 in
    elim (Bool-cases (is_available p s).0) [
      | inl up ↦ inr (
        available_is_alive p s up,
        look_ready p (look p s1).1
            (Eases-IsReady s1 (look p s1).1 p (look-Eases p s1) (is_available_up p s up)).1,
      )
      | inr down ↦ inl down
    ]

-- The counts of the loop are those of its list.
abbrev Tallies : ℕ × ℕ × List BackendInfo → Type 0
Tallies (alive_count, available_count, infos) =
    (alive_count ≡ length (keep (λ (i : BackendInfo). i.alive) infos))
    × (available_count ≡ length (keep (λ (i : BackendInfo). i.available) infos))
    × (available_count ≤ alive_count)
    × (alive_count ≤ length infos)

tally_one :
    (i : BackendInfo) (a v : ℕ) (infos : List BackendInfo)
    → IsConsistent i
    → Tallies (a, v, infos)
    → Tallies (one_if i.alive a, one_if i.available v, i ∷ infos)
tally_one i a v infos (inl down) h = ground (arith, h.0, h.1, h.2, h.3)
tally_one i a v infos (inr (up, closed)) h = ground (arith, h.0, h.1, h.2, h.3)

describe_all_lem :
    (ps : List Addr) (s0 s : Store)
    → Eases s0 s
    → let ((alive_count, available_count, infos), s') = describe_all ps s in
      DescribesAll s0 ps infos
      × All IsConsistent infos
      × Tallies (alive_count, available_count, infos)
      × Eases s0 s'
unfolding describe_all
describe_all_lem [] s0 s e = (tt, tt, (refl, refl, omega arith, omega arith), e)
describe_all_lem (p ∷ ps) s0 s e =
    let (info, s1) = describe p s in
    let rest = describe_all ps s1 in
    let (described, consistent, tallied, e') =
      describe_all_lem ps s0 s1 (Eases-trans s0 s s1 e (describe-Eases p s)) in
    (
      (describe-Describes p s0 s e, described),
      (describe-IsConsistent p s, consistent),
      tally_one info rest.0.0 rest.0.1 rest.0.2 (describe-IsConsistent p s) tallied,
      e',
    )

-- The report of `GetStats` has one object for every backend of the pool, in the pool's order, with
-- the backend's address, weight, connections and liveness. What it calls available it also calls
-- alive, with a closed circuit. The counts of live and of available backends are those of the
-- objects, the available ones being no more than the live ones. Making the report changes nothing
-- but open circuits whose timeout since the last error had passed at a reading of the clock that was
-- taken for the report; these are closed, and their errors are forgotten.
pub get_stats_lem :
    (pool : ServerPool) (s : Store)
    → let (report, s') = get_stats pool s in
      DescribesAll s pool.backends report.backends
      × All IsConsistent report.backends
      × (report.alive_backends ≡ length (keep (λ (i : BackendInfo). i.alive) report.backends))
      × (report.available_backends
          ≡ length (keep (λ (i : BackendInfo). i.available) report.backends))
      × (report.available_backends ≤ report.alive_backends)
      × (report.total_backends ≡ length pool.backends)
      × Eases s s'
unfolding get_stats get_backends
get_stats_lem pool s =
    let (described, consistent, (alive_eq, available_eq, available_le, alive_le), e) =
      describe_all_lem pool.backends s s (Eases-refl s) in
    (described, consistent, alive_eq, available_eq, available_le, refl, e)
