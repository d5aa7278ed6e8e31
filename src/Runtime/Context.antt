-- ===== src/Runtime/Context.antt =====
-- src/genesis/runtime/context: the bounded context of a run, built from what Backend authorised.
-- `Models` follows models.py, `Budgeting` budgeting.py, `Safety` safety.py and `Manager` manager.py.
pub mod Models
pub mod Budgeting
pub mod Injection
pub mod Safety
pub mod Goal
pub mod Manager
mod Tests
