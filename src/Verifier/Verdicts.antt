-- ===== src/Verifier/Verdicts.antt =====
-- src/monitor_verifier.c: what the verifier notices and writes at an event.
pub mod Gaps
pub mod Tainted
pub mod HoldTime
pub mod Streams
pub mod Candidate
pub mod Confirmation
