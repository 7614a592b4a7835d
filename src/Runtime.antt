-- ===== src/Runtime.antt =====
-- src/monitor_runtime.c: the transport of events from the application threads to the verifier.
pub mod State
pub mod Producer
pub mod Consumer
pub mod Lifecycle
pub mod Conservation
pub mod Draining
pub mod Shutdown
pub mod Detection
pub mod Streams
pub mod Ownership
pub mod Run
mod Tests
