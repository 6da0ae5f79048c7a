-- ===== src/Oracle.antt =====
-- chimera/modules/oracle/oracle: the module that learns what is usual. The children model its store,
-- the detector, the questions in plain language, and the daemon's client.
pub mod Store
pub mod Detector
pub mod Ask
pub mod Client
pub mod Counts
pub mod Edges
pub mod Trace
pub mod Windows
