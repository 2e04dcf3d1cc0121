-- ===== src/Backend/Breaker.antt =====
-- backend.go: what the circuit breaker of one backend does over its whole life. The specification is
-- the log of the errors that still count, newest first.
use load_balancer_comparison.Base.{
  ℕ, suc, ◌+◌, ◌-◌, ◌^◌, ◌<◌, ◌≤◌, ◌≡◌, sym, ◌∙◌, map, Bool, true, false, ◌&&◌, List, [], ◌∷◌,
  length, if◌then◌else◌, arith,
}
use load_balancer_comparison.Base.Int.{ℤ, pos, ltb_ℤ, leb_ℤ, ◌≤ℤ◌, wrap64, ◌+ℤ◌}
use load_balancer_comparison.Backend.{
  Backend, Time, time_sub, set_alive, is_circuit_open, record_success, record_error, add_connection,
  remove_connection,
}

-- What can happen to a backend. `look` is a call of `IsCircuitOpen` at the given time.
pub data Event : Type 0 where
  success connect disconnect : Event
  failure look : Time → Event
  probe : Bool → Event

unfoldable pub step : Backend → Event → Backend
step b success = record_success b
step b connect = add_connection b
step b disconnect = remove_connection b
step b (failure t) = record_error b t
step b (look t) = (is_circuit_open b t).1
step b (probe up) = set_alive b up

unfoldable pub run : Backend → List Event → Backend
run b [] = b
run b (e ∷ es) = run (step b e) es

-- The specification: when the errors of a log open the circuit, and what each event does to the log.
abbrev pub is_tripped : ℤ → List Time → Bool
is_tripped limit [] = false
is_tripped limit (t ∷ log) = leb_ℤ limit (pos (length (t ∷ log)))

abbrev pub is_timed_out : ℤ → Time → List Time → Bool
is_timed_out timeout now [] = false
is_timed_out timeout now (t ∷ log) = ltb_ℤ timeout (time_sub now t)

abbrev pub log_step : ℤ → ℤ → List Time → Event → List Time
log_step limit timeout log success = []
log_step limit timeout log connect = log
log_step limit timeout log disconnect = log
log_step limit timeout log (failure t) = t ∷ log
log_step limit timeout log (look now) =
    if is_tripped limit log && is_timed_out timeout now log then [] else log
log_step limit timeout log (probe up) = log

pub log_run : ℤ → ℤ → List Time → List Event → List Time
log_run limit timeout log [] = log
log_run limit timeout log (e ∷ es) = log_run limit timeout (log_step limit timeout log e) es

abbrev newest : List Time → Time → Time
newest [] t = t
newest (u ∷ log) t = u

-- A backend whose breaker stands as the log says.
pub record Represents (limit timeout : ℤ) (log : List Time) (b : Backend) : Type 0 where
  pub counted : b.consecutive_errors ≡ pos (length log)
  pub opened : b.circuit_open ≡ is_tripped limit log
  pub stamped : b.last_error_time ≡ newest log b.last_error_time
  pub limited : b.max_consecutive_errors ≡ limit
  pub timed : b.circuit_timeout ≡ timeout

count_next : (n : ℕ) → n < 2 ^ 63 - 1 → wrap64 (pos n +ℤ pos 1) ≡ pos (suc n)
unfolding wrap64 ◌+ℤ◌
count_next n h = ground arith

step-Represents :
    (limit timeout : ℤ) (log : List Time) (b : Backend) (e : Event)
    → length log < 2 ^ 63 - 1
    → Represents limit timeout log b
    → Represents limit timeout (log_step limit timeout log e) (step b e)
unfolding step set_alive is_circuit_open record_success record_error add_connection
    remove_connection
step-Represents limit timeout log b success h r = ground arith
step-Represents limit timeout log b connect h r = ground arith
step-Represents limit timeout log b disconnect h r = ground arith
step-Represents limit timeout log b (failure t) h r = ground (arith, count_next (length log))
step-Represents limit timeout [] b (look t) h r = ground arith
step-Represents limit timeout (u ∷ log) b (look t) h r = ground arith
step-Represents limit timeout log b (probe up) h r = ground arith

length-look :
    (limit timeout : ℤ) (log : List Time) (now : Time)
    → length (log_step limit timeout log (look now)) ≤ length log
length-look limit timeout log now = ground arith

length-log_step :
    (limit timeout : ℤ) (log : List Time) (e : Event)
    → length (log_step limit timeout log e) ≤ length log + 1
length-log_step limit timeout log e = ground arith

-- A breaker that stands as the log of the errors that still count says does so after every sequence
-- of events, as long as the errors of the log and the events are fewer than 2 ^ 63.
pub run-Represents :
    (limit timeout : ℤ) (log : List Time) (b : Backend) (es : List Event)
    → length log + length es < 2 ^ 63
    → Represents limit timeout log b
    → Represents limit timeout (log_run limit timeout log es) (run b es)
unfolding run log_run
run-Represents limit timeout log b [] h r = r
run-Represents limit timeout log b (e ∷ es) h r =
    run-Represents limit timeout (log_step limit timeout log e) (step b e) es
      (omega (arith, length-log_step limit timeout log e))
      (step-Represents limit timeout log b e (omega arith) r)

abbrev pub failure_count : List Event → ℕ
failure_count [] = 0
failure_count (failure t ∷ es) = suc (failure_count es)
failure_count (e ∷ es) = failure_count es

length-log_run :
    (limit timeout : ℤ) (log : List Time) (es : List Event)
    → length (log_run limit timeout log es) ≤ length log + failure_count es
unfolding log_run
length-log_run limit timeout log [] = omega arith
length-log_run limit timeout log (failure t ∷ es) =
    omega (arith, length-log_run limit timeout (t ∷ log) es)
length-log_run limit timeout log (look now ∷ es) = omega (
  arith,
  length-log_run limit timeout (log_step limit timeout log (look now)) es,
  length-look limit timeout log now,
)
length-log_run limit timeout log (success ∷ es) = omega (arith, length-log_run limit timeout [] es)
length-log_run limit timeout log (connect ∷ es) = length-log_run limit timeout log es
length-log_run limit timeout log (disconnect ∷ es) = length-log_run limit timeout log es
length-log_run limit timeout log (probe up ∷ es) = length-log_run limit timeout log es

tripped-le : (limit : ℤ) (log : List Time) → is_tripped limit log ≡ true → limit ≤ℤ pos (length log)
tripped-le limit [] h = ground arith
tripped-le limit (t ∷ log) h = ground arith

cleared :
    (limit timeout : ℤ) (log : List Time) (b : Backend)
    → Represents limit timeout log b
    → Represents limit timeout [] (record_success b)
unfolding record_success
cleared limit timeout log b r = ground arith

-- In a state that a log describes, a circuit that is found open some events after a success has seen,
-- since that success, at least as many errors as its limit. There are fewer than 2 ^ 63 - 1 events.
pub open_needs_failures :
    (limit timeout : ℤ) (log : List Time) (b : Backend) (es : List Event)
    → length es < 2 ^ 63 - 1
    → Represents limit timeout log b
    → (run b (success ∷ es)).circuit_open ≡ true
    → limit ≤ℤ pos (failure_count es)
unfolding run step record_success
open_needs_failures limit timeout log b es h r open_now =
    omega (arith, length-log_run limit timeout [] es, tripped-le limit _ (sym opened ∙ open_now))
  where
    open (run-Represents limit timeout []
        (record_success b)
        es
        (omega arith)
        (cleared limit timeout log b r)) use {opened}

-- In a state that the log describes, `n` further errors in a row, `n` at least 1, leave the circuit
-- open exactly when the errors that count then reach the limit, and the count is theirs. There are
-- fewer than 2 ^ 63 of them.
pub failures-circuit_open :
    (limit timeout : ℤ) (log : List Time) (b : Backend) (t : Time) (ts : List Time)
    → length log + length (t ∷ ts) < 2 ^ 63
    → Represents limit timeout log b
    → let after = run b (map failure (t ∷ ts)) in
      (after.circuit_open ≡ leb_ℤ limit (pos (length log + length (t ∷ ts))))
      × (after.consecutive_errors ≡ pos (length log + length (t ∷ ts)))
unfolding run step
failures-circuit_open limit timeout log b t [] h r =
    ground (arith, step-Represents limit timeout log b (failure t))
failures-circuit_open limit timeout log b t (u ∷ ts) h r = ground (
  arith,
  failures-circuit_open limit timeout (t ∷ log) (record_error b t) u ts (omega arith)
      (step-Represents limit timeout log b (failure t) (omega arith) r),
)
