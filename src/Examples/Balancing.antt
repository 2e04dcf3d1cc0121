-- ===== src/Examples/Balancing.antt =====
-- A request whose first attempt fails, at a concrete system.
use load_balancer_comparison.Base.{
  true, false, if◌then◌else◌, ℕ, ◌+◌, ◌≡◌, refl, none, some, inl, inr, ◌==◌, Bool-cases, arith,
}
use load_balancer_comparison.Base.Int.{ℤ, pos}
use load_balancer_comparison.Backend.{set_alive, Addr}
use load_balancer_comparison.Balancer.{
  failed, get_retry_from_context, System, Handler, Request, client, Writer, recorder, load_balance,
  error_handler,
}
use load_balancer_comparison.Balancer.Writers.{SameConnections, IsReset}
use load_balancer_comparison.Balancer.Connections.{load_balance-connections, Fits}
use load_balancer_comparison.Balancer.Progress.{load_balance_ends, EndsWithin, retries_left}
use load_balancer_comparison.Balancer.Reply.{load_balance_replies, Origin}
use load_balancer_comparison.Balancer.Failures.{
  success_resets_first_peer, last_failure_counts, Counting, load_balance_unavailable,
}
use load_balancer_comparison.Balancer.Robust.{Robust, AllRobust}
use load_balancer_comparison.Balancer.Exhausted.{exhausted, Refused}
use load_balancer_comparison.Balancer.Failover.{failover, Delivered}
use load_balancer_comparison.Examples.Fleet.{
  fleet, server, two_backends, refusing, or_else, total_eq, system, request, store, whole,
}

-- The system when the request is done.
abbrev pub done : System
done = or_else (load_balance 4 client request system) system

load_balance_ends_example :
    EndsWithin (1 + retries_left system 0) (load_balance 4 client request system) system
unfolding whole
load_balance_ends_example =
    load_balance_ends 4 0 client request system refl (omega arith) (omega arith)

pub returns : load_balance 4 client request system ≡ some done
returns =
    total_eq (load_balance 4 client request system) system load_balance_ends_example.0
      load_balance_ends_example.1

-- The first backend refuses, the second answers: 200, after two requests.
answered : (done.response ≡ some 200) × (done.sent ≡ 2)
unfolding whole
answered = (refl, refl)

pub fleet-Fits : Fits store
fleet-Fits q = elim (Bool-cases (q == 0)) [
  | inl e ↦ rw e (omega arith)
  | inr e ↦ rw e (omega arith)
]

load_balance-connections_example : SameConnections store done.store
load_balance-connections_example =
    load_balance-connections 4 client request system done fleet-Fits returns

first_reply : (code : ℕ) × (done.response ≡ some code) × Origin system.network code
first_reply = load_balance_replies 4 client request system done refl returns

-- The backend that refused the connection counts no error.
success_resets_first_peer_example : IsReset (done.store.heap 0)
unfolding whole
success_resets_first_peer_example =
    success_resets_first_peer 3 client request system done 0 200 refl refl returns answered.0 refl

server-Robust : (p : Addr) (weight : ℤ) → Robust 3 p (server p weight)
server-Robust p weight = record {
  up = refl;
  closed = refl;
  own = refl;
  counted = omega arith;
  room = omega arith;
  fits = omega arith;
}

pub fleet-AllRobust : AllRobust 3 store two_backends
fleet-AllRobust = (server-Robust 0 (pos 5), (server-Robust 1 (pos 1), tt))

failover_example : Delivered (refusing 0) two_backends (load_balance 4 client request system)
unfolding get_retry_from_context
failover_example =
    failover (refusing 0) 4 3 0 client request system refl refl (omega arith) refl (omega arith)
      fleet-AllRobust (λ i p. refl) (omega arith) (omega arith) refl (omega arith)

-- The fourth attempt is the last.
abbrev last_request : Request
last_request = record { path = "/"; retry = some (pos 3) }

abbrev no_more : Handler
no_more w r sys = none

-- The writers of the four attempts, which have gone to the two backends in turn.
abbrev last_writer : Writer
last_writer = recorder 1 (recorder 0 (recorder 1 (recorder 0 client)))

-- The fourth attempt is under way: the first backend has failed twice, the other once.
abbrev last_attempt : System
last_attempt = record system {
  store = record store {
    heap = λ p. record (fleet p) {
      connections = pos 2;
      consecutive_errors = if p == 0 then pos 2 else pos 1;
    };
    reads = 3;
  };
  sent = 4;
}

-- The fourth failure is the second of its own backend, whose count is then 4.
last_failure_counts_example :
    (sys' : System) × (error_handler no_more 1 last_writer last_request last_attempt ≡ some sys')
    × Counting 4 (pos 10) (sys'.store.heap 1)
    × (sys'.response ≡ some 503)
unfolding get_retry_from_context
last_failure_counts_example =
    last_failure_counts no_more 1 1 last_writer last_request last_attempt 1 (pos 10) refl
      (refl, refl, refl) (omega arith) (omega arith)

-- The first backend is down, the circuit of the other has just opened.
abbrev closed_system : System
closed_system = record system {
  store = record store {
    heap = λ p.
        if p == 0
        then set_alive (server 0 (pos 5)) false
        else record (server p (pos 1)) { circuit_open = true };
    clock = λ k. 7;
  };
}

load_balance_unavailable_example :
    (sys' : System) × (load_balance 1 client request closed_system ≡ some sys')
    × (sys'.response ≡ some 503)
    × (sys'.sent ≡ 0)
unfolding whole
load_balance_unavailable_example =
    load_balance_unavailable 0 request closed_system refl (inl refl, (inr (refl, λ k. refl), tt))

-- Every backend refuses connections.
abbrev dead_system : System
dead_system = record system { network = λ k p. failed "connection refused" }

exhausted_example : Refused 4 dead_system (load_balance 4 client request dead_system)
unfolding get_retry_from_context
exhausted_example =
    exhausted 4 3 0 client request dead_system refl refl (omega arith) refl (omega arith)
      (omega arith) fleet-AllRobust (λ i p. ("connection refused", refl)) refl (omega arith)
