-- ===== src/Concurrency.antt =====
-- Go-LoadBalancer/backend.go: the methods of one backend as its goroutines interleave. A step is one
-- atomic instruction, or one access while `circuitMux` is held; the section of a writer is one step,
-- since the lock keeps everyone else out of it.
pub mod Sums
pub mod Connections
pub mod Alone
pub mod Races
use load_balancer_comparison.Base.{ℕ, suc, ◌==◌, ◌≡◌, ◌<◌, Bool, true, false, if◌then◌else◌}
use load_balancer_comparison.Base.Int.{ℤ, pos, add64, ltb_ℤ, leb_ℤ}
use load_balancer_comparison.Backend.{
  Time, Backend, time_sub, set_alive, add_connection, remove_connection,
}
use load_balancer_comparison.Concurrency.Sums.{update, sum_below}

-- `RecordError` before its lock, and under it with the count that it was given.
abbrev pub count_error : Backend → Backend
count_error b = record b { consecutive_errors = add64 b.consecutive_errors (pos 1) }

abbrev pub note_error : ℤ → Time → Backend → Backend
note_error errors now b = record b {
  last_error_time = now;
  circuit_open = if leb_ℤ b.max_consecutive_errors errors then true else b.circuit_open;
}

-- `RecordSuccess`, and the reset in `IsCircuitOpen`.
abbrev pub clear_errors : Backend → Backend
clear_errors b = record b { consecutive_errors = pos 0 }

abbrev pub close_circuit : Backend → Backend
close_circuit b = record b { circuit_open = false }

abbrev pub timed_out : Time → Backend → Bool
timed_out now b = ltb_ℤ b.circuit_timeout (time_sub now b.last_error_time)

-- Where a goroutine stands: outside the methods, in `RecordError` with its count, in `RecordSuccess`,
-- or in `IsCircuitOpen` with the read lock.
pub data Pc : Type 0 where
  idle : Pc
  counted : (errors : ℤ) → Pc
  cleared : Pc
  looking : Pc
  closing : Pc
  resetting : Pc

abbrev pub reads : Pc → ℕ
reads looking = 1
reads closing = 1
reads resetting = 1
reads _ = 0

-- The call that a step belongs to. `fails` has the reading of the clock that `RecordError` takes under
-- its lock, `looks` the one that `IsCircuitOpen` takes if the circuit is open, and what it returns.
pub data Method : Type 0 where
  connects : Method
  disconnects : Method
  marks : (alive : Bool) → Method
  fails : (now : Time) → Method
  succeeds : Method
  looks : (now : Time) → (answer : Bool) → Method

-- A step of a goroutine in a call of a method, while `readers` goroutines hold the read lock. Of this
-- backend the goroutine holds a number of connections: every `loadBalance` that it is in, a retry inside
-- its first attempt included, may have called `AddConnection` once, and calls `RemoveConnection` only
-- then. Which methods a goroutine calls, and in which order, is left open otherwise.
pub data Move (b : Backend) (readers : ℕ) : Method → ℕ → Pc → Backend → ℕ → Pc → Type 0 where
  connect : {c : ℕ} → Move b readers connects c idle (add_connection b) (suc c) idle
  disconnect : {c : ℕ} → Move b readers disconnects (suc c) idle (remove_connection b) c idle
  mark : {c : ℕ} (alive : Bool) → Move b readers (marks alive) c idle (set_alive b alive) c idle
  add_error :
      {c : ℕ} {now : Time}
      → Move b readers
          (fails now)
          c
          idle
          (count_error b)
          c
          (counted (count_error b).consecutive_errors)
  lock_error :
      {c : ℕ} {errors : ℤ} (now : Time)
      → readers ≡ 0
      → Move b readers (fails now) c (counted errors) (note_error errors now b) c idle
  store_success : {c : ℕ} → Move b readers succeeds c idle (clear_errors b) c cleared
  lock_success : {c : ℕ} → readers ≡ 0 → Move b readers succeeds c cleared (close_circuit b) c idle
  read_lock :
      {c : ℕ} {now : Time} {answer : Bool} → Move b readers (looks now answer) c idle b c looking
  see_closed :
      {c : ℕ} {now : Time}
      → b.circuit_open ≡ false
      → Move b readers (looks now false) c looking b c idle
  see_open :
      {c : ℕ} (now : Time)
      → b.circuit_open ≡ true
      → timed_out now b ≡ false
      → Move b readers (looks now true) c looking b c idle
  see_late :
      {c : ℕ} (now : Time)
      → b.circuit_open ≡ true
      → timed_out now b ≡ true
      → Move b readers (looks now false) c looking b c closing
  close_late :
      {c : ℕ} {now : Time}
      → Move b readers (looks now false) c closing (close_circuit b) c resetting
  reset_late :
      {c : ℕ} {now : Time} → Move b readers (looks now false) c resetting (clear_errors b) c idle

-- A backend and its goroutines, each with the connections that it holds.
pub record Shared : Type 0 where
  pub backend : Backend
  pub connected : ℕ → ℕ
  pub pc : ℕ → Pc

-- One of `n` goroutines moves.
pub data Step (n : ℕ) (s : Shared) : Shared → Type 0 where
  pick :
      (i : ℕ) {m : Method} {b : Backend} {c : ℕ} {p : Pc}
      → i < n
      → Move s.backend (sum_below reads s.pc n) m (s.connected i) (s.pc i) b c p
      → Step n s (record { backend = b; connected = update s.connected i c; pc = update s.pc i p })

-- Nobody is in a method or has a connection.
abbrev pub quiet : Backend → Shared
quiet b = record { backend = b; connected = λ i. 0; pc = λ i. idle }

pub data Reach (n : ℕ) (b : Backend) : Shared → Type 0 where
  start : Reach n b (quiet b)
  later : {s t : Shared} → Reach n b s → Step n s t → Reach n b t
