-- ===== src/Client.antt =====
-- client.go: the methods of `Client` that change its state. As in Subscription, `meanwhile` is what
-- handlers and other goroutines do while a method waits, and may change anything.
mod Teardown
mod Transitions
mod ServerSubs
mod Tokens
unfoldable pub use Teardown.*
unfoldable pub use Transitions.*
unfoldable pub use ServerSubs.*
unfoldable pub use Tokens.*
mod Connect
mod Dispatch
unfoldable pub use Connect.*
unfoldable pub use Dispatch.*
mod Replies
unfoldable pub use Replies.*
mod New
unfoldable pub use New.*
mod Reader
unfoldable pub use Reader.*
mod Api
unfoldable pub use Api.*
mod Operations
unfoldable pub use Operations.*
pub mod Core
pub mod Consistency
pub mod Reports
pub mod Complete
pub mod Connecting
pub mod Closed
pub mod Start
pub mod Answers
pub mod Frames
pub mod Progress
