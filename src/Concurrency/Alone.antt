-- ===== src/Concurrency/Alone.antt =====
-- backend.go: a method that no other goroutine interrupts does what its one-step model does.
use load_balancer_comparison.Base.{ℕ, refl, sym, ap, ◌≡◌, ◌∙◌, true, false, Bool}
use load_balancer_comparison.Base.Int.{ℤ}
use load_balancer_comparison.Backend.{
  set_alive, add_connection, remove_connection, Time, Backend, record_error, record_success,
  is_circuit_open,
}
use load_balancer_comparison.Concurrency.{
  Method, connects, disconnects, marks, fails, succeeds, looks, Pc, idle, counted, cleared, looking,
  closing, resetting, Move, connect, disconnect, mark, add_error, lock_error, store_success,
  lock_success, read_lock, see_closed, see_open, see_late, close_late, reset_late, note_error,
  clear_errors, close_circuit, timed_out,
}

abbrev is_idle : Pc → Bool
is_idle idle = true
is_idle _ = false

-- The rest of a call of the method, without steps of others.
pub data Rest (m : Method) : Backend → Pc → Backend → Type 0 where
  ended : {b b' : Backend} → b' ≡ b → Rest m b idle b'
  goes_on :
      {b b1 b2 : Backend} {readers : ℕ} {c c1 : ℕ} {p p1 : Pc}
      → is_idle p ≡ false
      → Move b readers m c p b1 c1 p1
      → Rest m b1 p1 b2
      → Rest m b p b2

-- What one call of the method does when it is a single step.
abbrev pub OneStep : Method → Backend → Backend → Type 0
OneStep connects b b' = b' ≡ add_connection b
OneStep disconnects b b' = b' ≡ remove_connection b
OneStep (marks alive) b b' = b' ≡ set_alive b alive
OneStep (fails now) b b' = b' ≡ record_error b now
OneStep succeeds b b' = b' ≡ record_success b
OneStep (looks now answer) b b' = is_circuit_open b now ≡ (answer, b')

-- After its last step a call is over.
after_call : {m : Method} {b b' : Backend} → Rest m b idle b' → b' ≡ b
after_call (ended e) = e
after_call (goes_on h mv rest) = absurd (cc h)

error-Rest :
    {b b' : Backend} {errors : ℤ} {now : Time}
    → Rest (fails now) b (counted errors) b'
    → b' ≡ note_error errors now b
error-Rest (goes_on h (lock_error now free) rest) = after_call rest

success-Rest : {b b' : Backend} → Rest succeeds b cleared b' → b' ≡ close_circuit b
success-Rest (goes_on h (lock_success free) rest) = after_call rest

reset-Rest :
    {b b' : Backend} {now : Time} {answer : Bool}
    → Rest (looks now answer) b resetting b'
    → (answer ≡ false) × (b' ≡ clear_errors b)
reset-Rest (goes_on h reset_late rest) = (refl, after_call rest)

close-Rest :
    {b b' : Backend} {now : Time} {answer : Bool}
    → Rest (looks now answer) b closing b'
    → (answer ≡ false) × (b' ≡ clear_errors (close_circuit b))
close-Rest (goes_on h close_late rest) = (refl, (reset-Rest rest).1)

sees_closed :
    (b : Backend) (now : Time) → b.circuit_open ≡ false → is_circuit_open b now ≡ (false, b)
unfolding is_circuit_open
sees_closed b now e = rw e refl

sees_open :
    (b : Backend) (now : Time)
    → b.circuit_open ≡ true
    → timed_out now b ≡ false
    → is_circuit_open b now ≡ (true, b)
unfolding is_circuit_open
sees_open b now e f = rw (e, f) refl

sees_late :
    (b : Backend) (now : Time)
    → b.circuit_open ≡ true
    → timed_out now b ≡ true
    → is_circuit_open b now ≡ (false, clear_errors (close_circuit b))
unfolding is_circuit_open
sees_late b now e f = rw (e, f) refl

ends_with :
    (r : Bool × Backend) (answer : Bool) (b b' : Backend)
    → r ≡ (answer, b)
    → b' ≡ b
    → r ≡ (answer, b')
ends_with r answer b b' e f = e ∙ ap (λ x. (answer, x)) (sym f)

look-Rest :
    {b b' : Backend} {now : Time} {answer : Bool}
    → Rest (looks now answer) b looking b'
    → OneStep (looks now answer) b b'
look-Rest {now = now} (goes_on h (see_closed e) rest) =
    ends_with _ false _ _ (sees_closed _ now e) (after_call rest)
look-Rest (goes_on h (see_open now e f) rest) =
    ends_with _ true _ _ (sees_open _ now e f) (after_call rest)
look-Rest (goes_on h (see_late now e f) rest) =
    ends_with _ false _ _ (sees_late _ now e f) (close-Rest rest).1

-- A call of a method that is not interrupted leaves the backend as the one-step model of that same
-- method does, with the same argument or reading of the clock: `RecordError`, `RecordSuccess`,
-- `SetAlive`, `AddConnection`, `RemoveConnection`, or `IsCircuitOpen`, which also returns what its model
-- returns.
pub alone_lem :
    {m : Method} {b b1 b2 : Backend} {readers c c1 : ℕ} {p : Pc}
    → Move b readers m c idle b1 c1 p
    → Rest m b1 p b2
    → OneStep m b b2
unfolding record_error record_success
alone_lem connect rest = after_call rest
alone_lem disconnect rest = after_call rest
alone_lem (mark alive) rest = after_call rest
alone_lem add_error rest = error-Rest rest
alone_lem store_success rest = success-Rest rest
alone_lem read_lock rest = look-Rest rest
