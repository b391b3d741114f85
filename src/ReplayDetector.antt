-- ===== src/ReplayDetector.antt =====
-- Package replaydetector: packet replay detection over a window of sequence numbers.
pub mod FixedBig
pub mod Token
pub mod Sliding
pub mod Wrapped
mod Tests
