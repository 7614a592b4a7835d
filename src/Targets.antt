-- ===== src/Targets.antt =====
-- targets/: the programs that the monitor is run on. Their threads call the pthread functions, whose
-- results are choices of the model's steps.
pub mod Workers
pub mod Benchmark
pub mod Correct
pub mod Scripts
mod Tests
mod CorrectTests
