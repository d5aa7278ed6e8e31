-- ===== src/Runtime.antt =====
-- src/genesis/runtime: the limits of a run, the context that a run is given, and the engine.
pub mod Limits
pub mod Context
pub mod Agentic
