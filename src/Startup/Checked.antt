-- ===== src/Startup/Checked.antt =====
-- loadbalancer.go: `Start` begins with a health check beside the server. A check whose probes all
-- succeed takes no backend away, at no moment of it.
use Prim.Native.String.{String}
use mathlib.Core.Path.{subst}
use load_balancer_comparison.Base.{
  ℕ, zero, suc, ◌≡◌, refl, sym, ◌⊎◌, inl, inr, Bool, true, false, none, some, List, [], ◌∷◌, map,
  All, All-mono, Bool-cases, if◌then◌else◌,
}
use load_balancer_comparison.Backend.{Addr, set_alive}
use load_balancer_comparison.Store.{Store, modify, look, is_available}
use load_balancer_comparison.Store.Looks.{look-Eases, is_available-Eases}
use load_balancer_comparison.Pool.{ServerPool, get_backends, get_pool_summary}
use load_balancer_comparison.Pool.Survey.{get_pool_summary-Eases}
use load_balancer_comparison.Balancer.{Outcome}
use load_balancer_comparison.Balancer.Robust.{Robust, AllRobust, Eases-AllRobust, update-Robust}
use load_balancer_comparison.Health.{
  is_backend_alive, Phase, probing, answered, noted, observed, marked, reported, advised, weighed,
  finished, same, Task, turn, start_task, all_done, advance, take_turn, happen, run_tasks,
  health_check,
}

-- The store at some moment of the check or at its end, when nothing else has run.
abbrev pub Checks : (Addr → String → Outcome) → List ℕ → ServerPool → Store → Store → Type 0
Checks probes turns pool s s' =
    (s' ≡ (run_tasks probes (map turn turns) (map start_task (get_backends pool)) s).1)
    ⊎ (health_check probes (map turn turns) pool s ≡ some s')

set_alive-AllRobust :
    (n : ℕ) (p : Addr) (s : Store) (ps : List Addr)
    → AllRobust n s ps
    → AllRobust n (modify (λ b. set_alive b true) p s) ps
unfolding modify set_alive
set_alive-AllRobust n p s ps =
    All-mono (λ q. Robust n q (s.heap q))
      (λ q. Robust n q ((modify (λ b. set_alive b true) p s).heap q)) ps
      (λ q r. update-Robust n s.heap p q (set_alive (s.heap p) true) r (λ e.
        subst (λ x. Robust n q (set_alive (s.heap x) true)) (sym e)
          (record {
            up = refl;
            closed = r.closed;
            own = r.own;
            counted = r.counted;
            room = r.room;
            fits = r.fits;
          })))

look-AllRobust :
    (n : ℕ) (p : Addr) (s : Store) (ps : List Addr) → AllRobust n s ps → AllRobust n (look p s).1 ps
look-AllRobust n p s ps h = Eases-AllRobust n s (look p s).1 ps (look-Eases p s) h

look_if-AllRobust :
    (n : ℕ) (p : Addr) (s : Store) (ps : List Addr) (b : Bool)
    → AllRobust n s ps
    → AllRobust n (if b then (look p s).1 else s) ps
look_if-AllRobust n p s ps true h = look-AllRobust n p s ps h
look_if-AllRobust n p s ps false h = h

-- A goroutine that has not marked its backend yet has found it alive.
abbrev Found : Phase → Type 0
Found (answered alive) = alive ≡ true
Found (noted alive was) = alive ≡ true
Found (observed alive was) = alive ≡ true
Found phase = Unit

module _ (probes : Addr → String → Outcome)
    (good : (p : Addr) (url : String) → is_backend_alive (probes p) url ≡ true) (n : ℕ)
    (ps : List Addr) where
  advance-AllRobust :
      (p : Addr) (phase : Phase) (s : Store)
      → Found phase
      → AllRobust n s ps
      → Found (advance probes p phase s).0 × AllRobust n (advance probes p phase s).1 ps
  unfolding advance
  advance-AllRobust p probing s f h = (good p (s.heap p).url, h)
  advance-AllRobust p (answered alive) s f h = (f, h)
  advance-AllRobust p (noted alive was) s f h = (f, look-AllRobust n p s ps h)
  advance-AllRobust p (observed alive was) s f h = (
    tt,
    subst (λ a. AllRobust n (modify (λ b. set_alive b a) p s) ps) (sym f)
        (set_alive-AllRobust n p s ps h),
  )
  advance-AllRobust p (marked alive was) s f h = (tt, look-AllRobust n p s ps h)
  advance-AllRobust p (reported alive was) s f h = (tt, look_if-AllRobust n p s ps alive h)
  advance-AllRobust p (advised alive was) s f h =
      (tt, Eases-AllRobust n s (is_available p s).1 ps (is_available-Eases p s) h)
  advance-AllRobust p (weighed alive was) s f h =
      (tt, look_if-AllRobust n p s ps (same alive was) h)
  advance-AllRobust p finished s f h = (tt, h)

  take_turn-AllRobust :
      (i : ℕ) (ts : List Task) (s : Store)
      → All (λ (t : Task). Found t.phase) ts
      → AllRobust n s ps
      → All (λ (t : Task). Found t.phase) (take_turn probes i ts s).0
        × AllRobust n (take_turn probes i ts s).1 ps
  unfolding take_turn
  take_turn-AllRobust i [] s f h = (tt, h)
  take_turn-AllRobust zero (t ∷ ts) s f h =
      let (f', h') = advance-AllRobust t.backend t.phase s f.0 h in ((f', f.1), h')
  take_turn-AllRobust (suc i) (t ∷ ts) s f h =
      let (f', h') = take_turn-AllRobust i ts s f.1 h in ((f.0, f'), h')

  run_tasks-AllRobust :
      (turns : List ℕ) (ts : List Task) (s : Store)
      → All (λ (t : Task). Found t.phase) ts
      → AllRobust n s ps
      → AllRobust n (run_tasks probes (map turn turns) ts s).1 ps
  unfolding run_tasks happen
  run_tasks-AllRobust [] ts s f h = h
  run_tasks-AllRobust (i ∷ turns) ts s f h =
      let (f', h') = take_turn-AllRobust i ts s f h in
      run_tasks-AllRobust turns (take_turn probes i ts s).0 (take_turn probes i ts s).1 f' h'

  start-Found : (qs : List Addr) → All (λ (t : Task). Found t.phase) (map start_task qs)
  start-Found [] = tt
  start-Found (q ∷ qs) = (tt, start-Found qs)

  pub Checks-AllRobust :
      (turns : List ℕ) (pool : ServerPool) (s s' : Store)
      → Checks probes turns pool s s'
      → AllRobust n s ps
      → AllRobust n s' ps
  unfolding health_check
  Checks-AllRobust turns pool s s' (inl e) h =
      subst (λ t. AllRobust n t ps) (sym e)
        (run_tasks-AllRobust turns (map start_task (get_backends pool)) s
          (start-Found (get_backends pool)) h)
  Checks-AllRobust turns pool s s' (inr e) h =
      let ran = run_tasks probes (map turn turns) (map start_task (get_backends pool)) s in
      let kept : AllRobust n ran.1 ps =
        run_tasks-AllRobust turns (map start_task (get_backends pool)) s
          (start-Found (get_backends pool)) h in
      elim (Bool-cases (all_done ran.0)) [
        | inl done ↦
            let last : Store = (get_pool_summary pool ran.1).1 in
            let returns : health_check probes (map turn turns) pool s ≡ some last = rw done refl in
            let ends : last ≡ s' = cc (returns, e) in
            subst (λ t. AllRobust n t ps) ends
              (Eases-AllRobust n ran.1 last ps (get_pool_summary-Eases pool ran.1) kept)
        | inr waiting ↦
            let stuck : health_check probes (map turn turns) pool s ≡ none = rw waiting refl in
            absurd (cc (stuck, e))
      ]
