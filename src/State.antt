-- ===== src/State.antt =====
-- The state of a `Client` (client.go), of a `Subscription` (subscription.go), and what they leave
-- behind for others: queued events, started goroutines, requests, commands written.
mod Kinds
mod Output
mod Records
unfoldable pub use Kinds.*
unfoldable pub use Output.*
unfoldable pub use Records.*
