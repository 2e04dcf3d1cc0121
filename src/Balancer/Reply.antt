-- ===== src/Balancer/Reply.antt =====
-- loadbalancer.go: the status that the client is sent, and what it does to the backends that were
-- tried on the way.
use mathlib.Core.Path.{subst}
use load_balancer_comparison.Base.{
  ==_iff, ℕ, zero, suc, ◌≡◌, refl, sym, ap, ◌∙◌, true, Option, none, some, In, ◌⊎◌, inl, inr, arith,
}
use load_balancer_comparison.Backend.{Addr, remove_connection}
use load_balancer_comparison.Store.{Store, modify}
use load_balancer_comparison.Pool.{get_pool_summary, next_available_peer}
use load_balancer_comparison.Balancer.{
  System, Request, Writer, Outcome, responded, failed, recorder, Handler, error_handler, answer,
  serve_http, forward, load_balance, disconnect, http_error, write_header, first_status, is_success,
}
use load_balancer_comparison.Balancer.Cases.{
  some_eq, recorded, listed, retried, connected, error_handler_cases, forward_cases,
}
use load_balancer_comparison.Balancer.Writers.{
  recorders, write_header_frame, write_header_resets, IsReset,
}

-- Where a status comes from: a backend, or the load balancer itself.
abbrev pub Origin : (ℕ → Addr → Outcome) → ℕ → Type 0
Origin network code =
    ((k : ℕ) × (p : Addr) × (network k p ≡ responded code)) ⊎ (code ≡ 502) ⊎ (code ≡ 503)

-- The client is sent one status; if it is a success, the breakers of all backends whose recorders
-- the writer passes have been reset.
pub record Replied (w : Writer) (network : ℕ → Addr → Outcome) (sys' : System) : Type 0 where
  pub code : ℕ
  pub sent_code : sys'.response ≡ some code
  pub origin : Origin network code
  pub resets :
      is_success code ≡ true → (q : Addr) → In q (recorders w) → IsReset (sys'.store.heap q)

wrote-Replied :
    (w : Writer) (code : ℕ) (sys : System)
    → sys.response ≡ none
    → Origin sys.network code
    → Replied w sys.network (write_header w code sys)
wrote-Replied w code sys e o = record {
  code = code;
  sent_code =
      ap (λ (x : System). x.response) (write_header_frame w code sys)
      ∙ ap (λ r. first_status r code) e;
  origin = o;
  resets = λ s q m. write_header_resets w q code sys s (inl m);
}

pub disconnect-IsReset :
    (p q : Addr) (s : Store) → IsReset (s.heap q) → IsReset ((modify remove_connection p s).heap q)
unfolding modify remove_connection
disconnect-IsReset p q s r = ground (arith, ==_iff p q)

disconnect-Replied :
    (p : Addr) (w : Writer) (network : ℕ → Addr → Outcome) (sys' : System)
    → Replied (recorder p w) network sys'
    → Replied w network (disconnect p sys')
disconnect-Replied p w network sys' r = record {
  code = r.code;
  sent_code = r.sent_code;
  origin = r.origin;
  resets = λ s q m. disconnect-IsReset p q sys'.store (r.resets s q (inr m));
}

-- A handler that replies.
abbrev pub Replies : Handler → Type 0
Replies h =
    (w : Writer) (r : Request) (sys sys' : System)
    → sys.response ≡ none
    → h w r sys ≡ some sys'
    → Replied w sys.network sys'

module _ (again : Handler) (replies : Replies again) where
  error_handler-Replies : (p : Addr) → Replies (error_handler again p)
  unfolding http_error
  error_handler-Replies p w r sys sys' e h = elim (error_handler_cases again p w r sys sys' h) [
    | inl (_, next) ↦ replies w (retried r) (record sys { store = listed p sys }) sys' e next
    | inr (_, done) ↦
        subst (Replied w sys.network) (sym done)
          (wrote-Replied w 503 (record sys { store = recorded p sys.store }) e (inr (inr refl)))
  ]

  answer-Replies :
      (k : ℕ) (b : Addr) (o : Outcome) (handler : Option Addr) (w : Writer) (r : Request)
      (sys sys' : System)
      → sys.network k b ≡ o
      → sys.response ≡ none
      → answer again o handler w r sys ≡ some sys'
      → Replied w sys.network sys'
  unfolding answer
  answer-Replies k b (responded code) handler w r sys sys' n e h =
      subst (Replied w sys.network) (some_eq h) (wrote-Replied w code sys e (inl (k, b, n)))
  answer-Replies k b (failed t) none w r sys sys' n e h =
      subst (Replied w sys.network) (some_eq h) (wrote-Replied w 502 sys e (inr (inl refl)))
  answer-Replies k b (failed t) (some p) w r sys sys' n e h =
      error_handler-Replies p w r sys sys' e h

  pub serve_http-Replies : (p : Addr) → Replies (serve_http again p)
  unfolding serve_http
  serve_http-Replies p w r sys sys' e h =
      answer-Replies sys.sent p (sys.network sys.sent p) (sys.store.heap p).error_handler w r
        (record sys { sent = suc sys.sent }) sys' refl e h

  forward-Replies : (o : Option Addr) → Replies (forward again o)
  unfolding forward http_error
  forward-Replies none w r sys sys' e h = subst (Replied w sys.network) (some_eq h) (
      wrote-Replied w 503 (record sys { store = (get_pool_summary sys.pool sys.store).1 }) e
        (inr (inr refl)))
  forward-Replies (some p) w r sys sys' e h =
      let (sys'', served, done) = forward_cases again p w r sys sys' h in
      subst (Replied w sys.network) (sym done) (
        disconnect-Replied p w sys.network sys''
          (serve_http-Replies p (recorder p w) r (connected p sys) sys'' e served))

pub load_balance-Replied : (fuel : ℕ) → Replies (load_balance fuel)
unfolding load_balance
load_balance-Replied zero w r sys sys' e h = absurd (cc h)
load_balance-Replied (suc fuel) w r sys sys' e h =
    let (peer, pool', s') = next_available_peer sys.pool sys.store in
    forward-Replies (load_balance fuel) (load_balance-Replied fuel) peer w r
      (record sys { pool = pool'; store = s' }) sys' e h

-- When a request's handler returns, the client has been sent a status: one that a backend has
-- answered, or 502 or 503.
pub load_balance_replies :
    (fuel : ℕ) (w : Writer) (r : Request) (sys sys' : System)
    → sys.response ≡ none
    → load_balance fuel w r sys ≡ some sys'
    → (code : ℕ) × (sys'.response ≡ some code) × Origin sys.network code
load_balance_replies fuel w r sys sys' e h =
    let replied = load_balance-Replied fuel w r sys sys' e h in
    (replied.code, replied.sent_code, replied.origin)
