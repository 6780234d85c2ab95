-- ===== src/Platform/GrpcServer/Shutdown.antt =====
-- When `Serve` returns, and with what.
use family_tree_identity_mic.Shared.{
  ℕ, ℤ, pos, negsuc, zero, suc, ◌≡◌, refl, ◌⊎◌, inl, inr, Bool, true, false, Option, none, some,
  List, arith,
}
use family_tree_identity_mic.Domain.Errors.{Error, foreign, wrap, Result, ok, err}
use family_tree_identity_mic.Platform.GrpcServer.{
  serving, not_serving, Check, Server, Main, waiting, marking, stopping, forcing, awaiting,
  returned, calling, idle, checked, GrpcError, is_server_stopped, error_of, Grpc, running, draining,
  ended, drained_by_call, stopped_by_call, State, Step, Steps, here, then, started, serve,
  update_readiness, publish_status, first_failure,
}

-- The gRPC server ended without an error, or with one that tells that it was stopped.
abbrev pub IsClean : Grpc → Type 0
IsClean g =
    (g ≡ ended none) ⊎ ((e : GrpcError) × (g ≡ ended (some e)) × (is_server_stopped e ≡ true))

-- The gRPC server ended with an error that does not tell this, and it is told on.
abbrev pub IsFailure : Error → Grpc → Type 0
IsFailure failure g =
    (e : GrpcError) × (g ≡ ended (some e))
    × (is_server_stopped e ≡ false)
    × (failure ≡ wrap "serve gRPC" (error_of e))

-- `Serve` leaves its `select` only after its context was cancelled or the gRPC server ended.
abbrev pub IsEntitled : Main → Bool → Grpc → Type 0
IsEntitled waiting c g = Unit {0}
IsEntitled marking c g = c ≡ true
IsEntitled stopping c g = c ≡ true
IsEntitled forcing c g = c ≡ true
IsEntitled awaiting c g = c ≡ true
IsEntitled (returned (ok x)) c g = (c ≡ true) ⊎ IsClean g
IsEntitled (returned (err e)) c g = IsFailure e g

abbrev IsEntitledState : State → Type 0
IsEntitledState s = IsEntitled s.main s.cancelled s.grpc

-- What has ended stays so.
abbrev pub StaysEnded : Grpc → Grpc → Type 0
StaysEnded g g' = (e : Option GrpcError) → g ≡ ended e → g' ≡ ended e

pub running-StaysEnded : (g g' : Grpc) → g ≡ running → StaysEnded g g'
running-StaysEnded g g' r e h = absurd (ground arith)

pub draining-StaysEnded : (g g' : Grpc) → g ≡ draining → StaysEnded g g'
draining-StaysEnded g g' r e h = absurd (ground arith)

pub drained_by_call-StaysEnded : (g : Grpc) → StaysEnded g (drained_by_call g)
drained_by_call-StaysEnded g e h = rw h refl

pub stopped_by_call-StaysEnded : (g : Grpc) → StaysEnded g (stopped_by_call g)
stopped_by_call-StaysEnded g e h = rw h refl

abbrev pub IsPositive : ℤ → Type 0
IsPositive timeout = (n : ℕ) × (timeout ≡ pos (suc n))

pub serve-cases :
    (timeout : ℤ) (checks : List Check) (server : Server)
    → ((¬ IsPositive timeout)
        × (serve timeout checks server ≡ err (foreign "gRPC shutdown timeout must be positive")))
      ⊎ (IsPositive timeout × (serve timeout checks server ≡ ok (started checks server)))
unfolding serve
serve-cases (negsuc n) checks server = inl ((λ (n, e). ground arith), refl)
serve-cases (pos zero) checks server = inl ((λ (n, e). ground arith), refl)
serve-cases (pos (suc n)) checks server = inr ((n, refl), refl)

module _ (timeout : ℤ) (checks : List Check) (server : Server) where
  -- A run of `Serve` that stands at this state.
  abbrev pub RunsTo : State → Type 0
  RunsTo t = (s : State) × (serve timeout checks server ≡ ok s) × Steps s t

  -- `Serve` returns this: at once, or after its threads have run.
  pub data Serves : Result (Unit {0}) → Type 0 where
    refused : (e : Error) → serve timeout checks server ≡ err e → Serves (err e)
    ran : (t : State) (r : Result (Unit {0})) → RunsTo t → t.main ≡ returned r → Serves r

  -- The reasons for which `Serve` may return this.
  abbrev pub HasReason : Result (Unit {0}) → Type 0
  HasReason (ok x) =
      IsPositive timeout × ((t : State) × RunsTo t × ((t.cancelled ≡ true) ⊎ IsClean t.grpc))
  HasReason (err e) =
      ((¬ IsPositive timeout) × (e ≡ foreign "gRPC shutdown timeout must be positive"))
      ⊎ (IsPositive timeout × ((t : State) × RunsTo t × IsFailure e t.grpc))

-- A round of checks that has passed may be published behind the status that `Serve` sets when it
-- stops: from every state in which the context is cancelled, `Serve` still waits and such a round is
-- pending, there are steps after which the server stops gracefully while its health service answers
-- `SERVING`.
pub publish_stale :
    (s : State) (checks : List Check)
    → s.main ≡ waiting
    → s.cancelled ≡ true
    → s.monitor ≡ checked checks
    → first_failure checks ≡ none
    → (t : State) × Steps s t × (t.main ≡ stopping) × (t.server.health ≡ serving)
unfolding update_readiness publish_status
publish_stale s checks m c k passed =
    let s₁ = record s { main = marking } in
    let s₂ = record s₁ {
      main = stopping;
      stopper = calling;
      server = record s.server { health = not_serving };
    } in
    let s₃ = record s₂ { monitor = idle; server = update_readiness checks s₂.server } in
    (
      s₃,
      then (then (then here (Step.see_cancel m c refl)) (Step.mark refl refl))
          (Step.publish checks k refl),
      refl,
      rw passed refl,
    )
