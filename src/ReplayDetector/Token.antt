-- ===== src/ReplayDetector/Token.antt =====
-- replaydetector/replaydetector.go: the outcome of a check for one sequence number.
use transport.Prelude.{ℕ, Bool, true, false}

pub record Token : Type 0 where
  pub seq : ℕ
  pub is_passed : Bool

-- `Passed(seq)` and `Rejected(seq)`
unfoldable pub passed : ℕ → Token
passed seq = record { seq = seq; is_passed = true }

unfoldable pub rejected : ℕ → Token
rejected seq = record { seq = seq; is_passed = false }
