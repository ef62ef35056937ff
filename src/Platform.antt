-- ===== src/Platform.antt =====
-- What the Go runtime and internal/platform give the services: times and durations, `float64` behind
-- its laws, the text of provider hops, and the commit tracker of the Kafka consumer.
pub mod Time
pub mod Float
pub mod Calendar
pub mod HopCodec
pub mod Commits
