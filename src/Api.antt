-- ===== src/Api.antt =====
-- The messages of the gRPC service.
pub mod Requests
pub mod Responses
