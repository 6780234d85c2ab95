-- ===== src/Grpc.antt =====
-- internal/identity/adapters/grpc/server.go: the handlers of the service's RPCs.
pub mod Protocol
pub mod Errors
pub mod Answers
pub mod Server
pub mod Wired
