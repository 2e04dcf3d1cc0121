-- ===== src/Lib.antt =====
-- The Go load balancer of the repository (Go-LoadBalancer/), modelled from its source.
--
-- The program's parts and where they are modelled:
-- * Go-LoadBalancer/backend.go, one backend with its circuit breaker: `Backend` holds the record and
--   each method as a function that returns the new backend; `Store` is the memory in which backends
--   are shared by pointer, with the clock. `Backend.Breaker` has the life of a breaker, `Store.Looks`
--   what looking at a circuit changes.
-- * Go-LoadBalancer/algorithms.go, the three algorithms: `Algorithms`, one function for each loop of
--   `NextBackend`, with the state that is kept between calls. Its children have the proofs, those
--   below `Algorithms.Weighted` for weighted round robin.
-- * Go-LoadBalancer/serverpool.go, the pool: `Pool` (`NextAvailablePeer`, `NextPeer`,
--   `findAlternativeBackend`, `GetAvailableBackends`, `GetPoolSummary`, `joinStrings`); its children
--   `Survey`, `Choice`, `Answers`, `Down` and `Alternatives` have the proofs.
-- * The same file's health check: `Health` (`HealthCheck`, `isBackendAlive`), each goroutine as a
--   machine whose steps are its accesses to its backend, run by a schedule of turns with the calls of
--   requests between them, and the loop of loadbalancer.go that repeats it (`healthChecking`).
--   `Health.Marks` has the invariant of the steps, `Health.Ends` one check, `Health.Rounds` the loop.
-- * The same file's `GetStats` and the endpoints /health, /stats and /circuit-breakers of
--   loadbalancer.go: `Stats`; `Stats.Counts`, `Stats.Report`, `Stats.Circuits` and `Stats.Replies`.
-- * Go-LoadBalancer/loadbalancer.go and config.go, the handler of a request: `Balancer` (`loadBalance`,
--   `createErrorHandler`, `ResponseRecorder.WriteHeader`, `NewLoadBalancer`, `AddBackend`); its children
--   are named for what they prove.
-- * Go-LoadBalancer/main.go and `Start`: `Startup` (`main`, `BackendConfig`, the routes), with
--   `Startup.Filling` about the backends that are added, `Startup.Serving` about requests one after
--   another, `Startup.Whole` about the program from its start and `Startup.Outage` about its first
--   request while backends fail. `Startup.Turns` is about requests that all backends can answer,
--   `Startup.Checked` about the health check that `Start` begins with.
-- * The methods of Go-LoadBalancer/backend.go as goroutines interleave them: `Concurrency`, a step
--   relation; `Concurrency.Alone` ties it to the methods of `Backend`.
-- * TestBackend/, the server that the load balancer is tried out on: `TestBackend` (backend.go),
--   `TestBackend.Handlers` (handlers.go), `TestBackend.Requests` and `TestBackend.Flags` (main.go),
--   `TestBackend.Logging` (utils.go). `Delay`, `Control`, `Refusals` and `Count` have proofs about it
--   alone, `TestBackend.Probes` about the load balancer's health check of it.
-- `Base` has the shared names, lists and 64-bit integers, `Examples` the theorems at concrete inputs.
--
-- How they interact: `load_balance` asks the pool for a peer, the pool filters its backends by
-- `is_available` and asks its algorithm, the peer's proxy answers through a recorder of its own, and an
-- error handler calls `load_balance` again. A writer is therefore a chain of recorders, one for each
-- attempt, in front of the client.
--
-- Numbers: `int` and `int64` are integers with the wrap-around of two's complement written out
-- (`wrap64`), `uint64` is a number modulo 2 ^ 64, a `time.Duration` saturates as `Time.Sub` does.
-- Time: each `time.Now` takes the next reading of an arbitrary clock, so time may pass between any two
-- readings, also while the program sleeps; the clock is not even assumed to be monotonic.
-- Fuel: `load_balance` takes fuel for its retries; one more than the retries that are left is enough.
-- All other loops run over lists.
-- Memory: the store is a function from addresses to backends; an address stands for a pointer.
-- Steps: a method of a backend, and a call of an algorithm, is one step, as its mutex or atomic
-- instruction makes it, outside `Concurrency`. There the read lock of `IsCircuitOpen`, the atomic
-- instructions and the sections of writers are steps of their own. A request or a report is followed
-- from its begin to its end; only a health check is interleaved with the calls that requests make.
-- Schedules: a goroutine of a health check takes eight steps, so a schedule with eight turns for each
-- lets the check end.
--
-- Parameters: whether a path is clean for `ServeMux`, the floating-point rates of the test backend with
-- their comparison, `url.Parse`, the clock, and what the network answers to each
-- request that is forwarded and to each probe.
-- The behaviour of `net/http` is modelled where the code relies on it: a second status is ignored, the
-- proxy writes a final status through `WriteHeader` or calls its error handler, and the default error
-- handler writes 502. An attempt that the proxy aborts after the status was written differs from a
-- completed one only in a log line. Informational 1xx statuses are left out.
--
-- Not modelled: the texts of log lines and of bodies, `ResponseRecorder.statusCode`, which only a log
-- line reads, the copied and the timed values of the reports, the sockets and timeouts of the servers,
-- the sleeping of the test backend but for what a probe sees of it, the times in its bodies, the C
-- implementation and the scripts.
pub mod Base
pub mod Backend
pub mod Store
pub mod Algorithms
pub mod Pool
pub mod Balancer
pub mod Health
pub mod Stats
pub mod Concurrency
pub mod Startup
pub mod TestBackend
mod Examples
