-- ===== src/Subscription.antt =====
-- subscription.go: the methods of `Subscription`. Each function is what the source does in one hold
-- of the subscription's lock, or a row of those with `meanwhile` between them: what the handlers
-- and the other goroutines do while a method waits for the application.
mod New
mod Transitions
mod Resubscribe
mod Failure
mod Delta
mod Reply
mod Push
mod Refresh
mod Futures
unfoldable pub use New.*
unfoldable pub use Transitions.*
unfoldable pub use Resubscribe.*
unfoldable pub use Failure.*
unfoldable pub use Delta.*
unfoldable pub use Reply.*
unfoldable pub use Push.*
unfoldable pub use Refresh.*
unfoldable pub use Futures.*
mod Callbacks
unfoldable pub use Callbacks.*
mod Operations
unfoldable pub use Operations.*
pub mod Soundness
pub mod Unsubscribed
pub mod Staleness
pub mod Stream
pub mod Progress
pub mod Lifecycle
