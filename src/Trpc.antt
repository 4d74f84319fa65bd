-- ===== src/Trpc.antt =====
-- src/application_protocols/trpc: the tRPC codec.
pub mod Header
pub mod Protocol
pub mod Checker
pub mod Codec
