-- ===== src/Server.antt =====
-- src/ThingSetServer.cpp: the handling of one request. The registry is that of Registry.antt; the coders
-- are interfaces (Coding.antt), and what the objects of the application do is the interface `App`.
mod State
pub mod Calls
pub mod Handlers
mod Preserve
pub mod Safety
pub mod Termination
pub mod Branches
mod Examples
unfoldable pub use State.{set_status}
pub use State.{World, App, CallbackReason}
