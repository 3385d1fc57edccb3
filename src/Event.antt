-- ===== src/Event.antt =====
-- The event runtime (source/apixis/core/event).
pub mod Glob
pub mod Registry
pub mod Handler
pub mod Dispatch
pub mod Permits
pub mod Pipe
pub mod Loop
pub mod Waiter
pub mod Subscription
pub mod Factory
