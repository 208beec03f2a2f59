-- ===== src/Adaptive.antt =====
-- The resources and the modes of adaptive missions.
pub mod Budget
pub mod Escalation
pub mod Governor
pub mod Checks
pub mod Modes
pub mod Tests

pub data AdaptiveMode : Type 0 where
  s0 s1 s2 s3 : AdaptiveMode
