-- ===== src/Client.antt =====
-- packages/client/src: the connection to the server with its replay buffer, and the admission of
-- callers' executions.
pub mod State
pub mod Pending
pub mod Retained
pub mod Connection
pub mod Delivery
pub mod Closing
pub mod Reachable
pub mod RemoteApproval
pub mod Scheduler
pub mod Fixtures
mod Examples
