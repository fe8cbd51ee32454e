-- ===== src/Server/Executor.antt =====
-- packages/server/src/executor.ts: how a request becomes an execution on a connected client, and how
-- what the client sends becomes the stream that the caller reads.
pub mod Artifacts
pub mod Metadata
pub mod Settlement
pub mod Stream
pub mod Request
pub mod Dispatch
pub mod Cancel
mod Examples
