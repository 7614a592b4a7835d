-- ===== src/Verifier.antt =====
-- src/monitor_verifier.c: the verifier thread's view of threads and mutexes, and its verdicts.
pub mod State
pub mod Slots
pub mod Lookup
pub mod Reports
pub mod Held
pub mod Waiting
pub mod Gap
pub mod Cycle
pub mod Handlers
pub mod Process
pub mod Deadlock
pub mod Summary
pub mod Ownership
pub mod Config
pub mod Render
pub mod Invariant
pub mod Verdicts
pub mod Tests
