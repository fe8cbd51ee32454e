-- ===== src/Server.antt =====
-- packages/server/src: the agent registry, the tool approvals, and the WebSocket connections.
pub mod State
pub mod Approvals
pub mod TerminalError
pub mod Registry
pub mod Receipts
pub mod WireStatus
pub mod Acceptance
pub mod Frames
pub mod AgentIds
pub mod Connection
pub mod ExecutionScope
pub mod EventQueue
pub mod UsageRpc
pub mod Principal
pub mod Payments
pub mod Executor
pub mod TaskStore
pub mod CallerContext
pub mod ApprovalTick
pub mod Reachable
pub mod Fixtures
mod Examples
