-- ===== src/Platform/GrpcServer.antt =====
-- internal/platform/grpcserver/server.go. Of the gRPC library the documented behaviour is a part of
-- the step relation: `Serve` of its server runs until it fails or is stopped; `GracefulStop` lets the
-- pending calls finish, however long, and returns when the server has ended; `Stop` ends it at once.
-- The goroutines of `Serve` are threads whose steps interleave.
pub mod Readiness
pub mod Shutdown
pub mod Stopping
use family_tree_identity_mic.Shared.{
  ℕ, ℤ, pos, negsuc, zero, suc, ◌*◌, ◌≡◌, ◌⊎◌, String, Bool, true, false, Option, none, some, List,
  [], ◌∷◌, ◌++◌, if◌then◌else◌,
}
use family_tree_identity_mic.Domain.Errors.{Error, foreign, wrap, Result, ok, err}

-- `HealthCheckResponse_ServingStatus`.
pub data Serving : Type 0 where
  unknown serving not_serving : Serving

abbrev pub same_status : Serving → Serving → Bool
same_status unknown unknown = true
same_status serving serving = true
same_status not_serving not_serving = true
same_status _ _ = false

-- A readiness check, with what it answers in one round.
pub record Check : Type 0 where
  pub name : String
  pub result : Result (Unit {0})

-- The lines of the log on the readiness.
pub data Line : Type 0 where
  became_serving : Line
  became_not_serving : String → Error → Line

-- The fields of `Server` that change, with the status that the health service answers. Durations are
-- counted in nanoseconds.
pub record Server : Type 0 where
  pub interval : ℕ
  pub timeout : ℕ
  pub checks : List String
  pub health : Serving
  pub readiness : Serving
  pub log : List Line

-- `New` without its options: the readiness status is the zero of its type, and a new health server
-- answers `SERVING`.
abbrev pub new_server : Server
new_server = record {
  interval = 5_000_000_000;
  timeout = 2_000_000_000;
  checks = [];
  health = serving;
  readiness = unknown;
  log = [];
}

unfoldable pub with_readiness_check : String → Server → Server
with_readiness_check name server = record server { checks = server.checks ++ (name ∷ []) }

-- `d` in place of a duration, if it is positive.
unfoldable pub if_positive : ℤ → ℕ → ℕ
if_positive (pos zero) old = old
if_positive (pos (suc n)) old = suc n
if_positive (negsuc n) old = old

unfoldable pub with_readiness_timing : ℤ → ℤ → Server → Server
with_readiness_timing interval timeout server = record server {
  interval = if_positive interval server.interval;
  timeout = if_positive timeout server.timeout;
}

-- The loop of lines 183 to 193: it stops at the first check that fails.
unfoldable pub first_failure : List Check → Option (String × Error)
first_failure [] = none
first_failure (check ∷ checks) = elim check.result [
  | ok x ↦ first_failure checks
  | err e ↦ some (check.name, e)
]

abbrev pub status_after : Option (String × Error) → Serving
status_after none = serving
status_after (some failure) = not_serving

abbrev pub line_after : Option (String × Error) → Line
line_after none = became_serving
line_after (some (name, e)) = became_not_serving name e

-- Lines 195 to 213.
unfoldable pub publish_status : Option (String × Error) → Server → Server
publish_status failure server =
    let status = status_after failure in
    record server {
      health = status;
      readiness = status;
      log =
          if same_status server.readiness status
          then server.log
          else line_after failure ∷ server.log;
    }

unfoldable pub update_readiness : List Check → Server → Server
update_readiness checks server = publish_status (first_failure checks) server

-- Where `Serve` stands: in its `select`; before the status is set; in the `select` of `gracefulStop`;
-- with its timer fired, before `Stop`; waiting for `GracefulStop` behind it; or returned.
pub data Main : Type 0 where
  waiting marking stopping forcing awaiting : Main
  returned : Result (Unit {0}) → Main

-- Where the goroutine of `gracefulStop` stands: not started, before its call of `GracefulStop`, in
-- that call, or with the channel closed.
pub data Stopper : Type 0 where
  absent calling blocked closed : Stopper

-- Where `monitorReadiness` stands: in its `select`, with the checks of a round done, or returned.
pub data Monitor : Type 0 where
  idle : Monitor
  checked : List Check → Monitor
  stopped : Monitor

-- An error of `grpcServer.Serve`: `grpc.ErrServerStopped`, one that wraps another, or any other.
pub data GrpcError : Type 0 where
  server_stopped : GrpcError
  wrapped : String → GrpcError → GrpcError
  other : Error → GrpcError

-- `errors.Is(err, grpc.ErrServerStopped)`.
unfoldable pub is_server_stopped : GrpcError → Bool
is_server_stopped server_stopped = true
is_server_stopped (wrapped text e) = is_server_stopped e
is_server_stopped (other e) = false

unfoldable pub error_of : GrpcError → Error
error_of server_stopped = foreign "grpc: the server has been stopped"
error_of (wrapped text e) = wrap text (error_of e)
error_of (other e) = e

-- The gRPC server: it accepts calls; it lets the pending ones finish, after `GracefulStop`; or its
-- `Serve` has ended, with an error or none.
pub data Grpc : Type 0 where
  running draining : Grpc
  ended : Option GrpcError → Grpc

-- What becomes of it when `GracefulStop` is called, and when `Stop` is.
abbrev pub drained_by_call : Grpc → Grpc
drained_by_call running = draining
drained_by_call draining = draining
drained_by_call (ended e) = ended e

abbrev pub stopped_by_call : Grpc → Grpc
stopped_by_call running = ended none
stopped_by_call draining = ended none
stopped_by_call (ended e) = ended e

-- Lines 144 to 149.
unfoldable pub serve_result : Option GrpcError → Result (Unit {0})
serve_result none = ok tt
serve_result (some e) = if is_server_stopped e then ok tt else err (wrap "serve gRPC" (error_of e))

pub record State : Type 0 where
  pub main : Main
  pub monitor : Monitor
  pub stopper : Stopper
  pub grpc : Grpc
  pub server : Server
  -- The context is done.
  pub cancelled : Bool

-- Lines 130 to 141: the first round of checks is made before the goroutines start.
abbrev pub started : List Check → Server → State
started checks server = record {
  main = waiting;
  monitor = idle;
  stopper = absent;
  grpc = running;
  server = update_readiness checks server;
  cancelled = false;
}

-- The context of the monitor is done: `Serve` cancels it when it returns.
abbrev pub IsMonitorDone : State → Type 0
IsMonitorDone s = (s.cancelled ≡ true) ⊎ ((r : Result (Unit {0})) × (s.main ≡ returned r))

-- `Serve`, up to where its threads run.
unfoldable pub serve : ℤ → List Check → Server → Result State
serve (negsuc n) checks server = err (foreign "gRPC shutdown timeout must be positive")
serve (pos zero) checks server = err (foreign "gRPC shutdown timeout must be positive")
serve (pos (suc n)) checks server = ok (started checks server)

-- `Run`, with what `net.Listen` answers.
unfoldable pub run : Result (Unit {0}) → ℤ → List Check → Server → Result State
run (err e) timeout checks server = err (wrap "listen" e)
run (ok x) timeout checks server = serve timeout checks server

-- One step: of whoever cancels the context, of the monitor, of the gRPC server, or of `Serve` with
-- the goroutine that it starts. The gRPC server may fail while it accepts calls, and may finish its
-- pending calls once it drains; it need not do either.
pub data Step (s t : State) : Type 0 where
  cancel : t ≡ record s { cancelled = true } → Step s t
  tick :
      (checks : List Check)
      → s.monitor ≡ idle
      → t ≡ record s { monitor = checked checks }
      → Step s t
  publish :
      (checks : List Check)
      → s.monitor ≡ checked checks
      → t ≡ record s { monitor = idle; server = update_readiness checks s.server }
      → Step s t
  quit : s.monitor ≡ idle → IsMonitorDone s → t ≡ record s { monitor = stopped } → Step s t
  fail : (e : GrpcError) → s.grpc ≡ running → t ≡ record s { grpc = ended (some e) } → Step s t
  drain : s.grpc ≡ draining → t ≡ record s { grpc = ended none } → Step s t
  see_end :
      (e : Option GrpcError)
      → s.main ≡ waiting
      → s.grpc ≡ ended e
      → t ≡ record s { main = returned (serve_result e) }
      → Step s t
  see_cancel : s.main ≡ waiting → s.cancelled ≡ true → t ≡ record s { main = marking } → Step s t
  -- The status is set, and `gracefulStop` starts its goroutine.
  mark :
      s.main ≡ marking
      → t ≡ record s {
        main = stopping;
        stopper = calling;
        server = record s.server { health = not_serving };
      }
      → Step s t
  call_graceful_stop :
      s.stopper ≡ calling
      → t ≡ record s { stopper = blocked; grpc = drained_by_call s.grpc }
      → Step s t
  close :
      (e : Option GrpcError)
      → s.stopper ≡ blocked
      → s.grpc ≡ ended e
      → t ≡ record s { stopper = closed }
      → Step s t
  finish :
      s.main ≡ stopping → s.stopper ≡ closed → t ≡ record s { main = returned (ok tt) } → Step s t
  expire : s.main ≡ stopping → t ≡ record s { main = forcing } → Step s t
  call_stop :
      s.main ≡ forcing → t ≡ record s { main = awaiting; grpc = stopped_by_call s.grpc } → Step s t
  finish_forced :
      s.main ≡ awaiting → s.stopper ≡ closed → t ≡ record s { main = returned (ok tt) } → Step s t

pub data Steps (s : State) : State → Type 0 where
  here : Steps s s
  then : {t u : State} → Steps s t → Step t u → Steps s u
