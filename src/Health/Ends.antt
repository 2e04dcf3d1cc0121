-- ===== src/Health/Ends.antt =====
-- serverpool.go: a health check ends when every goroutine has had its steps, and all backends are
-- then marked.
use mathlib.Core.Path.{subst}
use Prim.Native.String.{String}
use load_balancer_comparison.Base.{
  All-In, In-All, sym, ap, ◌∙◌, ◌≡◌, refl, inl, inr, true, arith, if◌then◌else◌, ℕ, zero, suc, List,
  [], ◌∷◌, All, In, map, some, ◌≤◌, ◌-◌, ◌==◌, ◌<◌, length,
}
use load_balancer_comparison.Backend.{Addr}
use load_balancer_comparison.Store.{Store}
use load_balancer_comparison.Store.Looks.{Eases-alive}
use load_balancer_comparison.Pool.{next_available_peer, ServerPool, get_backends, get_pool_summary}
use load_balancer_comparison.Pool.Choice.{next_available_peer-IsReady}
use load_balancer_comparison.Pool.Survey.{get_pool_summary-Eases}
use load_balancer_comparison.Balancer.{Outcome}
use load_balancer_comparison.Health.{
  Phase, probing, answered, noted, observed, marked, reported, advised, weighed, finished, advance,
  Task, take_turn, happen, run_tasks, Event, turn, traffic, all_done, is_finished, start_task,
  health_check, is_backend_alive,
}
use load_balancer_comparison.Health.Marks.{Sound, run_tasks-Went, start-Sound, SoundTask, found}

-- How many steps a goroutine has left.
abbrev pub left : Phase → ℕ
left probing = 8
left (answered a) = 7
left (noted a was) = 6
left (observed a was) = 5
left (marked a was) = 4
left (reported a was) = 3
left (advised a was) = 2
left (weighed a was) = 1
left finished = 0

abbrev pub left_at : ℕ → List Task → ℕ
left_at j [] = 0
left_at zero (t ∷ ts) = left t.phase
left_at (suc j) (t ∷ ts) = left_at j ts

abbrev pub turns : ℕ → List Event → ℕ
turns j [] = 0
turns j (turn i ∷ es) = let rest = turns j es in if i == j then suc rest else rest
turns j (traffic c p ∷ es) = turns j es

-- Every goroutine has the steps that it needs.
abbrev pub IsFair : ℕ → List Event → Type 0
IsFair n es = (j : ℕ) → j < n → 8 ≤ turns j es

abbrev checked : List Task → List Addr
checked ts = map (λ (t : Task). t.backend) ts

module _ (network : Addr → String → Outcome) where
  left-advance :
      (p : Addr) (phase : Phase) (s : Store) → left (advance network p phase s).0 ≡ left phase - 1
  unfolding advance
  left-advance p probing s = refl
  left-advance p (answered a) s = refl
  left-advance p (noted a was) s = refl
  left-advance p (observed a was) s = refl
  left-advance p (marked a was) s = refl
  left-advance p (reported a was) s = refl
  left-advance p (advised a was) s = refl
  left-advance p (weighed a was) s = refl
  left-advance p finished s = refl

  take_turn_left :
      (i j : ℕ) (ts : List Task) (s : Store)
      → left_at j (take_turn network i ts s).0 ≡ (if i == j then left_at j ts - 1 else left_at j ts)
  unfolding take_turn
  take_turn_left i j [] s = ground arith
  take_turn_left zero zero (t ∷ ts) s = left-advance t.backend t.phase s
  take_turn_left zero (suc j) (t ∷ ts) s = ground arith
  take_turn_left (suc i) zero (t ∷ ts) s = ground arith
  take_turn_left (suc i) (suc j) (t ∷ ts) s = ground (arith, take_turn_left i j ts s)

  checked-take_turn :
      (i : ℕ) (ts : List Task) (s : Store) → checked (take_turn network i ts s).0 ≡ checked ts
  unfolding take_turn
  checked-take_turn i [] s = refl
  checked-take_turn zero (t ∷ ts) s = refl
  checked-take_turn (suc i) (t ∷ ts) s = ap (◌∷◌ t.backend) (checked-take_turn i ts s)

  checked-run_tasks :
      (es : List Event) (ts : List Task) (s : Store)
      → checked (run_tasks network es ts s).0 ≡ checked ts
  unfolding run_tasks happen
  checked-run_tasks [] ts s = refl
  checked-run_tasks (turn i ∷ es) ts s = checked-run_tasks es _ _ ∙ checked-take_turn i ts s
  checked-run_tasks (traffic c p ∷ es) ts s = checked-run_tasks es ts _

  run_tasks_left :
      (es : List Event) (j : ℕ) (ts : List Task) (s : Store)
      → left_at j (run_tasks network es ts s).0 ≡ left_at j ts - turns j es
  unfolding run_tasks happen
  run_tasks_left [] j ts s = omega arith
  run_tasks_left (turn i ∷ es) j ts s =
      let ts' : List Task = (take_turn network i ts s).0 in
      let s' : Store = (take_turn network i ts s).1 in
      ground (arith, run_tasks_left es j ts' s', take_turn_left i j ts s)
  run_tasks_left (traffic c p ∷ es) j ts s = run_tasks_left es j ts _

is_finished-left : (phase : Phase) → left phase ≡ 0 → is_finished phase ≡ true
is_finished-left probing h = ground arith
is_finished-left (answered a) h = ground arith
is_finished-left (noted a was) h = ground arith
is_finished-left (observed a was) h = ground arith
is_finished-left (marked a was) h = ground arith
is_finished-left (reported a was) h = ground arith
is_finished-left (advised a was) h = ground arith
is_finished-left (weighed a was) h = ground arith
is_finished-left finished h = refl

all_done_left : (ts : List Task) → ((j : ℕ) → left_at j ts ≡ 0) → all_done ts ≡ true
unfolding all_done
all_done_left [] h = refl
all_done_left (t ∷ ts) h =
    ground (arith, is_finished-left t.phase (h 0), all_done_left ts (λ j. h (suc j)))

start_left :
    (ps : List Addr) (n j : ℕ) → (j < length ps → 8 ≤ n) → left_at j (map start_task ps) ≤ n
start_left [] n j h = omega arith
start_left (p ∷ ps) n zero h = h (omega arith)
start_left (p ∷ ps) n (suc j) h = start_left ps n j (λ less. h (omega arith))

start_checked : (ps : List Addr) → checked (map start_task ps) ≡ ps
start_checked [] = refl
start_checked (p ∷ ps) = ap (◌∷◌ p) (start_checked ps)

module _ (network : Addr → String → Outcome) (urls : Addr → String) where
  finished_marks :
      (s : Store) (q : Addr) (phase : Phase)
      → is_finished phase ≡ true
      → Sound network urls s q phase
      → (s.heap q).alive ≡ found network urls q
  finished_marks s q probing done sound = ground arith
  finished_marks s q (answered a) done sound = ground arith
  finished_marks s q (noted a was) done sound = ground arith
  finished_marks s q (observed a was) done sound = ground arith
  finished_marks s q (marked a was) done sound = ground arith
  finished_marks s q (reported a was) done sound = ground arith
  finished_marks s q (advised a was) done sound = ground arith
  finished_marks s q (weighed a was) done sound = ground arith
  finished_marks s q finished done sound = sound

  all_done_marks :
      (ts : List Task) (s : Store) (q : Addr)
      → all_done ts ≡ true
      → All (SoundTask network urls s) ts
      → In q (checked ts)
      → (s.heap q).alive ≡ found network urls q
  unfolding all_done
  all_done_marks [] s q done sound h = elim h [ ]
  all_done_marks (t ∷ ts) s q done sound (inl e) =
      subst (λ r. (s.heap r).alive ≡ found network urls r) (sym e)
        (finished_marks s t.backend t.phase (ground arith) sound.0)
  all_done_marks (t ∷ ts) s q done sound (inr m) = all_done_marks ts s q (ground arith) sound.1 m

fair_ends :
    (network : Addr → String → Outcome) (events : List Event) (ps : List Addr) (s : Store)
    → IsFair (length ps) events
    → all_done (run_tasks network events (map start_task ps) s).0 ≡ true
fair_ends network events ps s fair =
    all_done_left (run_tasks network events (map start_task ps) s).0 (λ j. omega (
      arith,
      run_tasks_left network events j (map start_task ps) s,
      start_left ps (turns j events) j (fair j),
    ))

-- However the goroutines of a health check and the calls of the requests interleave, if every
-- goroutine gets its eight steps then the check ends, and every backend of the pool is then marked
-- alive or not as its own probe found it.
pub health_check_marks :
    (network : Addr → String → Outcome) (events : List Event) (pool : ServerPool) (s : Store)
    → IsFair (length pool.backends) events
    → (s' : Store) × (health_check network events pool s ≡ some s')
      × All (λ p. (s'.heap p).alive ≡ is_backend_alive (network p) (s.heap p).url) pool.backends
unfolding health_check get_backends
health_check_marks network events pool s fair =
    let ps : List Addr = pool.backends in
    let urls : Addr → String = λ q. (s.heap q).url in
    let ts : List Task = (run_tasks network events (map start_task ps) s).0 in
    let s1 : Store = (run_tasks network events (map start_task ps) s).1 in
    let done : all_done ts ≡ true = fair_ends network events ps s fair in
    let (known, sound) =
      run_tasks-Went network urls events (map start_task ps) s (λ q. refl)
        (start-Sound network urls ps s) in
    let same_backends : checked ts ≡ ps =
      checked-run_tasks network events (map start_task ps) s ∙ start_checked ps in
    (
      (get_pool_summary pool s1).1,
      rw done refl,
      All-In _ ps (λ p member.
          Eases-alive s1 (get_pool_summary pool s1).1 p (get_pool_summary-Eases pool s1)
          ∙ all_done_marks network urls ts s1 p done sound
              (subst (In p) (sym same_backends) member)),
    )

-- The backend that is chosen right after a health check has passed its probe in that check.
pub chosen_passed_probe :
    (network : Addr → String → Outcome) (events : List Event) (pool : ServerPool) (s s' : Store)
    (p : Addr)
    → IsFair (length pool.backends) events
    → health_check network events pool s ≡ some s'
    → (next_available_peer pool s').0 ≡ some p
    → is_backend_alive (network p) (s.heap p).url ≡ true
chosen_passed_probe network events pool s s' p fair returned chosen =
    let (s1, returns, marks) = health_check_marks network events pool s fair in
    let (member, ready, eases) = next_available_peer-IsReady pool s' p chosen in
    let same_store : s1 ≡ s' = cc (returns, returned) in
    let known : (s'.heap p).alive ≡ is_backend_alive (network p) (s.heap p).url =
      subst (λ (t : Store). (t.heap p).alive ≡ is_backend_alive (network p) (s.heap p).url)
        same_store
        (In-All (λ q. (s1.heap q).alive ≡ is_backend_alive (network q) (s.heap q).url) pool.backends
          p marks member) in
    sym known ∙ sym (Eases-alive s' _ p eases) ∙ ready.0
