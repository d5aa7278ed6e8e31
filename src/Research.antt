-- ===== src/Research.antt =====
-- src/genesis/research: the domains and the sources of research, the decision whether external
-- research is asked for, and the engine that turns evidence into findings.
pub mod Domains
pub mod Sources
pub mod Decision
pub mod Engine
pub mod Comparison
pub mod Documents
mod Tests
