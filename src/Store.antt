-- ===== src/Store.antt =====
-- The backends that the program shares by pointer, and the clock. A method call through a pointer
-- reads and writes the backend at that address; each `time.Now` takes the next reading.
pub mod Looks
use load_balancer_comparison.Base.{ℕ, suc, ◌==◌, Bool, true, false, ◌&&◌, not, if◌then◌else◌}
use load_balancer_comparison.Backend.{
  Addr, Time, Backend, is_circuit_open, is_alive, set_alive, record_success, record_error,
  add_connection, remove_connection,
}

-- `fresh` is the address that the next allocation takes. The clock's readings are arbitrary, and
-- `reads` of them have been taken.
pub record Store : Type 0 where
  pub heap : Addr → Backend
  pub fresh : Addr
  pub clock : ℕ → Time
  pub reads : ℕ

abbrev pub update : (Addr → Backend) → Addr → Backend → Addr → Backend
update heap p b q = if p == q then b else heap q

-- A method that needs no clock.
unfoldable pub modify : (Backend → Backend) → Addr → Store → Store
modify f p s = record s { heap = update s.heap p (f (s.heap p)) }

-- `RecordError` reads the clock once.
unfoldable pub fail : Addr → Store → Store
fail p s = record s {
  heap = update s.heap p (record_error (s.heap p) (s.clock s.reads));
  reads = suc s.reads;
}

-- `IsCircuitOpen` reads the clock only when the circuit is open.
unfoldable pub look : Addr → Store → Bool × Store
look p s =
    let b = s.heap p in
    let (open_now, b') = is_circuit_open b (s.clock s.reads) in
    if b.circuit_open
    then (open_now, record s { heap = update s.heap p b'; reads = suc s.reads })
    else (false, s)

-- `IsAvailable`: the circuit is looked at only if the backend is alive.
unfoldable pub is_available : Addr → Store → Bool × Store
unfolding look
is_available p s =
    if is_alive (s.heap p)
    then (let (open_now, s') = look p s in (not open_now, s'))
    else (false, s)
