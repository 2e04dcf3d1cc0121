-- ===== src/Stats/Circuits.antt =====
-- loadbalancer.go: what /circuit-breakers counts and lists.
use mathlib.Core.Path.{subst}
use Prim.Native.String.{String}
use text.Mathlib.TextEquality.{eq_iff}
use text.Mathlib.Text.{◌==◌ as str_eq}
use load_balancer_comparison.Base.{
  All, All-In, ◌≡◌, refl, sym, ap, ◌∙◌, inl, inr, ℕ, suc, ◌≤◌, ◌+◌, List, [], ◌∷◌, map, In, length,
  Bool-cases, arith,
}
use load_balancer_comparison.Backend.{Addr}
use load_balancer_comparison.Store.{Store, is_available}
use load_balancer_comparison.Store.Looks.{Eases-field, Eases, Eases-refl, Eases-trans}
use load_balancer_comparison.Pool.{ServerPool, get_backends}
use load_balancer_comparison.Stats.{
  CircuitInfo, CircuitMap, put_entry, Census, describe_circuit, census_step, take_census, no_census,
  circuit_report,
}
use load_balancer_comparison.Stats.Counts.{available_not_open}
use load_balancer_comparison.Stats.Report.{two_looks-Eases}

abbrev pub keys : CircuitMap → List String
keys entries = map (λ (e : String × CircuitInfo). e.0) entries

put_entry-length :
    (key : String) (info : CircuitInfo) (entries : CircuitMap)
    → length (put_entry key info entries) ≤ suc (length entries)
put_entry-length key info [] = omega arith
put_entry-length key info ((k, v) ∷ entries) = ground (arith, put_entry-length key info entries)

put_entry-In :
    (key : String) (info : CircuitInfo) (entries : CircuitMap)
    → In key (keys (put_entry key info entries))
put_entry-In key info [] = inl refl
put_entry-In key info ((k, v) ∷ entries) = elim (Bool-cases (str_eq key k)) [
  | inl e ↦ rw e (inl ((eq_iff key k).0 e))
  | inr e ↦ rw e (inr (put_entry-In key info entries))
]

put_entry_keeps :
    (key k : String) (info : CircuitInfo) (entries : CircuitMap)
    → In k (keys entries)
    → In k (keys (put_entry key info entries))
put_entry_keeps key k info [] h = elim h [ ]
put_entry_keeps key k info ((l, v) ∷ entries) h = elim (Bool-cases (str_eq key l)) [
  | inl e ↦ rw e h
  | inr e ↦ rw e (elim h [ inl m ↦ inl m | inr m ↦ inr (put_entry_keeps key k info entries m) ])
]

-- What the loop has counted after some backends, of which there were `n`.
abbrev Fair : ℕ → Census → Type 0
Fair n c = (c.available_count + c.open_count ≤ n) × (length c.entries ≤ n)

census_one :
    (p : Addr) (s : Store) (n : ℕ) (c : Census)
    → Fair n c
    → Fair (suc n) (census_step (describe_circuit p s).0 c)
unfolding census_step describe_circuit
census_one p s n c h =
    let info : CircuitInfo = (describe_circuit p s).0 in
    (
      elim (Bool-cases (is_available p s).0) [
        | inl up ↦ rw (up, available_not_open p s up) (omega (arith, h.0))
        | inr down ↦ ground (arith, h.0)
      ],
      omega (arith, put_entry-length info.url info c.entries, h.1),
    )

describe_circuit-Eases : (p : Addr) (s : Store) → Eases s (describe_circuit p s).1
unfolding describe_circuit
describe_circuit-Eases p s = two_looks-Eases p s

describe_circuit-url :
    (p : Addr) (s0 s : Store) → Eases s0 s → (describe_circuit p s).0.url ≡ (s0.heap p).url
unfolding describe_circuit
describe_circuit-url p s0 s e =
    Eases-field (λ b. b.url) (λ b. refl) s0 _ p (Eases-trans s0 _ _ e (two_looks-Eases p s))

take_census_lem :
    (ps : List Addr) (n : ℕ) (c : Census) (s0 s : Store)
    → Eases s0 s
    → Fair n c
    → let (c', s') = take_census ps c s in
      Fair (length ps + n) c'
      × ((k : String) → In k (keys c.entries) → In k (keys c'.entries))
      × ((p : Addr) → In p ps → In (s0.heap p).url (keys c'.entries))
      × Eases s0 s'
unfolding take_census
take_census_lem [] n c s0 s e h =
    ((omega (arith, h.0), omega (arith, h.1)), (λ k m. m), (λ p m. elim m [ ]), e)
take_census_lem (p ∷ ps) n c s0 s e h =
    let (info, s1) = describe_circuit p s in
    let c1 : Census = census_step info c in
    let (fair, keeps, listed, e') =
      take_census_lem ps (suc n) c1 s0 s1 (Eases-trans s0 s s1 e (describe_circuit-Eases p s))
        (census_one p s n c h) in
    (
      (omega (arith, fair.0), omega (arith, fair.1)),
      (λ k m. keeps k (put_entry_keeps info.url k info c.entries m)),
      (λ q m. elim m [
        | inl is_p ↦ keeps (s0.heap q).url (
            subst (λ u. In u (keys c1.entries))
              (describe_circuit-url p s0 s e ∙ ap (λ r. (s0.heap r).url) (sym is_p))
              (put_entry-In info.url info c.entries))
        | inr m' ↦ listed q m'
      ]),
      e',
    )

-- In the report of /circuit-breakers no backend counts both as available and as having an open
-- circuit: these two counts are at most the number of backends together, and so the number of
-- closed circuits is a true difference. Every backend of the pool has an entry under its address,
-- and there are no more entries than backends. Making the report changes no backend but by closing
-- open circuits whose timeout since the last error had passed at a reading of the clock that was taken
-- for the report.
pub circuit_report_lem :
    (pool : ServerPool) (s : Store)
    → let ((entries, summary), s') = circuit_report pool s in
      (summary.total_backends ≡ length pool.backends)
      × (summary.available_backends + summary.circuits_open ≤ summary.total_backends)
      × (summary.circuits_open + summary.circuits_closed ≡ summary.total_backends)
      × All (λ p. In (s.heap p).url (keys entries)) pool.backends
      × (length entries ≤ length pool.backends)
      × Eases s s'
unfolding circuit_report get_backends
circuit_report_lem pool s =
    let ((either, few), keeps, listed, e) =
      take_census_lem pool.backends 0 no_census s s (Eases-refl s) (omega arith, omega arith) in
    (
      refl,
      omega (arith, either),
      omega (arith, either),
      All-In _ pool.backends listed,
      omega (arith, few),
      e,
    )
