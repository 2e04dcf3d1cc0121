-- ===== src/Startup/Filling.antt =====
-- main.go: the pool that `main` fills.
use mathlib.Core.Path.{subst}
use Prim.Native.String.{String}
use mathlib.Core.List.{append-nil, append_assoc}
use load_balancer_comparison.Balancer.Connections.{Fits}
use load_balancer_comparison.Base.{
  ℕ, ◌≡◌, refl, sym, ◌∙◌, none, List, [], ◌∷◌, ◌++◌, All, ◌<◌, arith,
}
use load_balancer_comparison.Backend.{Addr, Backend, Result, ok, new_backend}
use load_balancer_comparison.Store.{Store, update}
use load_balancer_comparison.Pool.{add_backend, new_server_pool}
use load_balancer_comparison.Algorithms.{create_algorithm}
use load_balancer_comparison.Balancer.{Config, System, Outcome, new_load_balancer, add_server}
use load_balancer_comparison.Balancer.Fixed.{update_at, update_away}
use load_balancer_comparison.Balancer.Handled.{WellFormed}
use load_balancer_comparison.Startup.Added.{added_backend, added, added-WellFormed, added-Fits}
use load_balancer_comparison.Startup.{BackendConfig, add_servers}

module _ (parse : String → Result String) where
  -- The backends are those of the configuration, in its order, as `NewBackend` makes them.
  abbrev pub Filled : (Addr → Backend) → List Addr → List BackendConfig → Type 0
  Filled heap [] [] = Unit
  Filled heap [] (c ∷ cs) = ⊥
  Filled heap (p ∷ ps) [] = ⊥
  Filled heap (p ∷ ps) (c ∷ cs) =
      ((url : String) × (parse c.url ≡ ok url) × (heap p ≡ added_backend p url c.weight))
      × Filled heap ps cs

  -- The address can be parsed.
  abbrev pub Parses : BackendConfig → Type 0
  Parses c = (url : String) × (parse c.url ≡ ok url)

  Filled-append :
      (heap : Addr → Backend) (ps qs : List Addr) (cs ds : List BackendConfig)
      → Filled heap ps cs
      → Filled heap qs ds
      → Filled heap (ps ++ qs) (cs ++ ds)
  Filled-append heap [] qs [] ds f g = g
  Filled-append heap (p ∷ ps) qs (c ∷ cs) ds f g = (f.0, Filled-append heap ps qs cs ds f.1 g)
  Filled-append heap [] qs (c ∷ cs) ds f g = elim f [ ]
  Filled-append heap (p ∷ ps) qs [] ds f g = elim f [ ]

  Filled-update :
      (heap : Addr → Backend) (r : Addr) (b : Backend) (ps : List Addr) (cs : List BackendConfig)
      → All (λ p. p < r) ps
      → Filled heap ps cs
      → Filled (update heap r b) ps cs
  Filled-update heap r b [] [] less f = tt
  Filled-update heap r b (p ∷ ps) (c ∷ cs) less f = (
    (f.0.0, f.0.1, update_away heap r p b (omega (arith, less.0)) ∙ f.0.2),
    Filled-update heap r b ps cs less.1 f.1,
  )
  Filled-update heap r b [] (c ∷ cs) less f = elim f [ ]
  Filled-update heap r b (p ∷ ps) [] less f = elim f [ ]

  add_server_ok :
      (sys : System) (c : BackendConfig) (url : String)
      → parse c.url ≡ ok url
      → add_server parse sys c.url c.weight ≡ ok (added sys url c.weight)
  unfolding add_server new_backend add_backend
  add_server_ok sys c url e = rw (add_server, new_backend, e) refl

-- `initial` is the store before the first backend is added.
module _ (parse : String → Result String) (initial : Store) where
  -- The loop has added some backends.
  abbrev Loaded : System → List BackendConfig → Type 0
  Loaded sys cs =
      WellFormed sys
      × Filled parse sys.store.heap sys.pool.backends cs
      × (Fits initial → Fits sys.store)

  added-Loaded :
      (sys : System) (cs : List BackendConfig) (c : BackendConfig) (url : String)
      → parse c.url ≡ ok url
      → Loaded sys cs
      → Loaded (added sys url c.weight) (cs ++ c ∷ [])
  added-Loaded sys cs c url e (v, f, fits) =
      let r : Addr = sys.store.fresh in
      let b : Backend = added_backend r url c.weight in
      (
        added-WellFormed sys url c.weight v,
        Filled-append parse (update sys.store.heap r b) sys.pool.backends (r ∷ []) cs (c ∷ [])
            (Filled-update parse sys.store.heap r b sys.pool.backends cs v.allocated f)
            ((url, e, update_at sys.store.heap r r b refl), tt),
        λ start. added-Fits sys url c.weight (fits start),
      )

  -- What a loop that returns leaves.
  abbrev Fills : System → List BackendConfig → Result System → Type 0
  Fills sys cs result =
      (sys' : System) × (result ≡ ok sys')
      × Loaded sys' cs
      × (sys'.config ≡ sys.config)
      × (sys'.network ≡ sys.network)
      × (sys'.pool.algorithm ≡ sys.pool.algorithm)
      × (sys'.response ≡ sys.response)

  add_servers_fill :
      (ds : List BackendConfig) (sys : System) (cs : List BackendConfig)
      → All (Parses parse) ds
      → Loaded sys cs
      → Fills sys (cs ++ ds) (add_servers parse sys ds)
  unfolding add_servers
  add_servers_fill [] sys cs good loaded =
      (sys, refl, subst (Loaded sys) (sym (append-nil cs)) loaded, refl, refl, refl, refl)
  add_servers_fill (d ∷ ds) sys cs good loaded =
      let (url, e) = good.0 in
      let next : System = added sys url d.weight in
      let (sys', returns, loaded', config_same, network_same, turn_same, reply_same) =
        add_servers_fill ds next (cs ++ d ∷ []) good.1 (added-Loaded sys cs d url e loaded) in
      (
        sys',
        rw (add_servers, add_server_ok parse sys d url e) returns,
        subst (Loaded sys') (append_assoc cs (d ∷ []) ds) loaded',
        config_same,
        network_same,
        turn_same,
        reply_same,
      )

module _ (parse : String → Result String) (config : Config) (network : ℕ → Addr → Outcome)
    (s : Store) (cs : List BackendConfig) (good : All (Parses parse) cs) where
  start-Fills :
      Fills parse s
        (new_load_balancer config network s)
        cs
        (add_servers parse (new_load_balancer config network s) cs)
  unfolding new_load_balancer
  start-Fills =
      add_servers_fill parse s cs (new_load_balancer config network s) [] good
        (record { allocated = tt; distinct = tt; handled = tt }, tt, λ fits. fits)

  -- When all addresses of a configuration can be parsed, its backends are added: the pool holds one
  -- backend for each, in order, with its weight, alive, with a closed circuit, no connections and an
  -- error handler of its own; the backends are distinct.
  pub add_servers_lem :
      (sys : System) × (add_servers parse (new_load_balancer config network s) cs ≡ ok sys)
      × WellFormed sys
      × Filled parse sys.store.heap sys.pool.backends cs
      × (sys.config ≡ config)
      × (sys.network ≡ network)
  unfolding new_load_balancer
  add_servers_lem =
      let (sys, returns, (v, f, fits), config_same, network_same, _, _) = start-Fills in
      (sys, returns, v, f, config_same, network_same)

  pub add_servers-Fits :
      (sys : System)
      → add_servers parse (new_load_balancer config network s) cs ≡ ok sys
      → Fits s
      → Fits sys.store
  add_servers-Fits sys h start =
      let (sys', returns, (v, f, fits), _, _, _, _) = start-Fills in
      let same_system : sys' ≡ sys = cc (returns, h) in
      subst (λ (x : System). Fits x.store) same_system (fits start)

  -- The loop asks no backend and changes no algorithm.
  pub add_servers_start :
      (sys : System)
      → add_servers parse (new_load_balancer config network s) cs ≡ ok sys
      → (sys.pool.algorithm ≡ create_algorithm config.algorithm) × (sys.response ≡ none)
  unfolding new_load_balancer new_server_pool
  add_servers_start sys h =
      let (sys', returns, _, _, _, turn_same, reply_same) = start-Fills in
      let same_system : sys' ≡ sys = cc (returns, h) in
      subst
        (λ (x : System).
          (x.pool.algorithm ≡ create_algorithm config.algorithm) × (x.response ≡ none))
        same_system (turn_same, reply_same)
