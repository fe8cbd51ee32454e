-- ===== src/Protocol.antt =====
-- packages/protocol/src/index.ts: the frames that client and server exchange, as they stand after
-- the schemas have parsed them. An instant is its number of milliseconds since the epoch. A JSON
-- number is kept as its text.
mod Values
mod Content
mod Frames
unfoldable pub use Values.*
pub use Content.*
pub use Frames.*
pub mod FederatedPrincipal
pub mod CallerContext
