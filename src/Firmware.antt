-- ===== src/Firmware.antt =====
-- cnserverops/firmware.py: a package's metadata, the decision whether it is for a server, and the
-- repository of packages.
pub mod Metadata
pub mod Applicability
pub mod Decision
pub mod Repository
pub mod Stored
mod Tests
