-- ===== src/Platform.antt =====
-- internal/platform: the gRPC server and the logger.
pub mod GrpcServer
pub mod Logger
