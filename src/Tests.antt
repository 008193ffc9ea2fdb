-- ===== src/Tests.antt =====
-- Concrete inputs: the theorems at values that meet their hypotheses.
pub mod Numbers
pub mod Samples
pub mod Statistics
pub mod Connecting
pub mod Serving
pub mod Configuration
pub mod Launching
pub mod Benchmarks
pub mod Streaming
pub mod Lifetimes
pub mod Interleaved
pub mod Copying
pub mod Stopping
pub mod Threading
