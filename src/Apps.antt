-- ===== src/Apps.antt =====
-- The applications under apps/.
pub mod Messages
pub mod Gateway
pub mod Publisher
pub mod Subscriber
pub mod Feed
pub mod CommandLine
pub mod Drivers
pub mod Client
