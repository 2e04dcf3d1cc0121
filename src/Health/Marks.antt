-- ===== src/Health/Marks.antt =====
-- serverpool.go: whatever runs meanwhile, the health check marks a backend as its probe found it.
use Prim.Native.String.{String}
use load_balancer_comparison.Base.{
  refl, All-mono, ap, ◌∙◌, ◌≡◌, ◌⊎◌, inl, true, false, arith, Bool, if◌then◌else◌, ℕ, zero, suc,
  List, [], ◌∷◌, All, map,
}
use load_balancer_comparison.Backend.{
  Addr, is_alive, set_alive, record_success, record_error, add_connection, remove_connection,
}
use load_balancer_comparison.Store.{Store, look, modify, fail}
use load_balancer_comparison.Store.Looks.{
  Eases-field, Eases, Eases-refl, Eases-alive, look-Eases, is_available-Eases,
}
use load_balancer_comparison.Balancer.{Outcome}
use load_balancer_comparison.Health.{
  is_backend_alive, Phase, probing, answered, noted, observed, marked, reported, advised, weighed,
  finished, Call, looks, fails, succeeds, connects, disconnects, perform, advance, same, Task,
  take_turn, happen, run_tasks, Event, turn, traffic, start_task,
}

pub Eases-url : (s s' : Store) (q : Addr) → Eases s s' → (s'.heap q).url ≡ (s.heap q).url
Eases-url s s' q e = Eases-field (λ b. b.url) (λ b. refl) s s' q e

module _ (network : Addr → String → Outcome) (urls : Addr → String) where
  -- What the probe of a backend finds.
  abbrev pub found : Addr → Bool
  found q = is_backend_alive (network q) (urls q)

  abbrev pub Known : Store → Type 0
  Known s = (q : Addr) → (s.heap q).url ≡ urls q

  -- Every backend stays as it was marked, or is marked as its probe finds it.
  abbrev pub Keeps : Store → Store → Type 0
  Keeps s s' =
      (q : Addr)
      → ((s'.heap q).url ≡ (s.heap q).url)
        × (((s'.heap q).alive ≡ (s.heap q).alive) ⊎ ((s'.heap q).alive ≡ found q))

  -- A goroutine carries what its probe found, and has marked its backend so once it is past that.
  abbrev pub Sound : Store → Addr → Phase → Type 0
  Sound s q probing = Unit
  Sound s q (answered a) = a ≡ found q
  Sound s q (noted a was) = a ≡ found q
  Sound s q (observed a was) = a ≡ found q
  Sound s q (marked a was) = (s.heap q).alive ≡ found q
  Sound s q (reported a was) = (s.heap q).alive ≡ found q
  Sound s q (advised a was) = (s.heap q).alive ≡ found q
  Sound s q (weighed a was) = (s.heap q).alive ≡ found q
  Sound s q finished = (s.heap q).alive ≡ found q

  Eases-Keeps : (s s' : Store) → Eases s s' → Keeps s s'
  Eases-Keeps s s' e q = (Eases-url s s' q e, inl (Eases-alive s s' q e))

  perform-Keeps : (c : Call) (p : Addr) (s : Store) → Keeps s (perform c p s)
  unfolding perform fail modify record_error record_success add_connection remove_connection
  perform-Keeps looks p s = Eases-Keeps s (look p s).1 (look-Eases p s)
  perform-Keeps fails p s = λ q. ground arith
  perform-Keeps succeeds p s = λ q. ground arith
  perform-Keeps connects p s = λ q. ground arith
  perform-Keeps disconnects p s = λ q. ground arith

  still :
      (q : Addr) (s s' : Store)
      → Keeps s s'
      → (s.heap q).alive ≡ found q
      → (s'.heap q).alive ≡ found q
  still q s s' k h = ground (arith, k q)

  Keeps-Known : (s s' : Store) → Keeps s s' → Known s → Known s'
  Keeps-Known s s' k h q = (k q).0 ∙ h q

  Sound-Keeps :
      (s s' : Store) (q : Addr) (phase : Phase) → Keeps s s' → Sound s q phase → Sound s' q phase
  Sound-Keeps s s' q probing k h = tt
  Sound-Keeps s s' q (answered a) k h = h
  Sound-Keeps s s' q (noted a was) k h = h
  Sound-Keeps s s' q (observed a was) k h = h
  Sound-Keeps s s' q (marked a was) k h = still q s s' k h
  Sound-Keeps s s' q (reported a was) k h = still q s s' k h
  Sound-Keeps s s' q (advised a was) k h = still q s s' k h
  Sound-Keeps s s' q (weighed a was) k h = still q s s' k h
  Sound-Keeps s s' q finished k h = still q s s' k h

  mark-Keeps :
      (p : Addr) (a : Bool) (s : Store)
      → a ≡ found p
      → Keeps s (modify (λ b. set_alive b a) p s)
        × (((modify (λ b. set_alive b a) p s).heap p).alive ≡ found p)
  unfolding modify set_alive
  mark-Keeps p a s h = ((λ q. ground arith), ground arith)

  optional-Eases : (b : Bool) (p : Addr) (s : Store) → Eases s (if b then (look p s).1 else s)
  optional-Eases true p s = look-Eases p s
  optional-Eases false p s = Eases-refl s

  -- A step of a goroutine.
  abbrev Stepped : Addr → Store → Phase × Store → Type 0
  Stepped p s (phase', s') = Keeps s s' × Sound s' p phase'

  eased-Stepped :
      (p : Addr) (s s' : Store) (phase : Phase)
      → Eases s s'
      → Sound s p phase
      → Stepped p s (phase, s')
  eased-Stepped p s s' phase e h = let k = Eases-Keeps s s' e in (k, Sound-Keeps s s' p phase k h)

  advance-Stepped :
      (p : Addr) (phase : Phase) (s : Store)
      → Known s
      → Sound s p phase
      → Stepped p s (advance network p phase s)
  unfolding advance
  advance-Stepped p probing s known h =
      eased-Stepped p s s (answered _) (Eases-refl s) (ap (is_backend_alive (network p)) (known p))
  advance-Stepped p (answered a) s known h =
      eased-Stepped p s s (noted a (is_alive (s.heap p))) (Eases-refl s) h
  advance-Stepped p (noted a was) s known h =
      eased-Stepped p s _ (observed a was) (look-Eases p s) h
  advance-Stepped p (observed a was) s known h = mark-Keeps p a s h
  advance-Stepped p (marked a was) s known h =
      eased-Stepped p s _ (reported a was) (look-Eases p s) h
  advance-Stepped p (reported a was) s known h =
      eased-Stepped p s _ (advised a was) (optional-Eases a p s) h
  advance-Stepped p (advised a was) s known h =
      eased-Stepped p s _ (weighed a was) (is_available-Eases p s) h
  advance-Stepped p (weighed a was) s known h =
      eased-Stepped p s _ finished (optional-Eases (same a was) p s) h
  advance-Stepped p finished s known h = eased-Stepped p s s finished (Eases-refl s) h

  abbrev pub SoundTask : Store → Task → Type 0
  SoundTask s t = Sound s t.backend t.phase

  -- Some steps of a round: they keep what the goroutines know.
  abbrev pub Went : Store → List Task × Store → Type 0
  Went s (ts', s') = Known s' × All (SoundTask s') ts'

  take_turn-Sound :
      (i : ℕ) (ts : List Task) (s : Store)
      → Known s
      → All (SoundTask s) ts
      → Keeps s (take_turn network i ts s).1
        × All (SoundTask (take_turn network i ts s).1) (take_turn network i ts s).0
  unfolding take_turn
  take_turn-Sound i [] s known h = (Eases-Keeps s s (Eases-refl s), tt)
  take_turn-Sound zero (t ∷ ts) s known h =
      let s' : Store = (advance network t.backend t.phase s).1 in
      let (keeps, sound) = advance-Stepped t.backend t.phase s known h.0 in
      (
        keeps,
        (
          sound,
          All-mono (SoundTask s) (SoundTask s') ts (λ u. Sound-Keeps s s' u.backend u.phase keeps)
              h.1,
        ),
      )
  take_turn-Sound (suc i) (t ∷ ts) s known h =
      let s' : Store = (take_turn network i ts s).1 in
      let (keeps, sound) = take_turn-Sound i ts s known h.1 in
      (keeps, (Sound-Keeps s s' t.backend t.phase keeps h.0, sound))

  happen-Went :
      (e : Event) (ts : List Task) (s : Store)
      → Known s
      → All (SoundTask s) ts
      → Went s (happen network e ts s)
  unfolding happen
  happen-Went (turn i) ts s known h =
      let (keeps, sound) = take_turn-Sound i ts s known h in
      (Keeps-Known s (take_turn network i ts s).1 keeps known, sound)
  happen-Went (traffic c p) ts s known h =
      let keeps = perform-Keeps c p s in
      (
        Keeps-Known s (perform c p s) keeps known,
        All-mono (SoundTask s) (SoundTask (perform c p s)) ts
            (λ u. Sound-Keeps s (perform c p s) u.backend u.phase keeps) h,
      )

  pub run_tasks-Went :
      (es : List Event) (ts : List Task) (s : Store)
      → Known s
      → All (SoundTask s) ts
      → Went s (run_tasks network es ts s)
  unfolding run_tasks
  run_tasks-Went [] ts s known h = (known, h)
  run_tasks-Went (e ∷ es) ts s known h =
      let (known', h') = happen-Went e ts s known h in
      run_tasks-Went es (happen network e ts s).0 (happen network e ts s).1 known' h'

  pub start-Sound : (ps : List Addr) (s : Store) → All (SoundTask s) (map start_task ps)
  start-Sound [] s = tt
  start-Sound (p ∷ ps) s = (tt, start-Sound ps s)
