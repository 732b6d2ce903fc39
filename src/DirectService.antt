-- ===== src/DirectService.antt =====
-- direct_service.py: sessions, admission, execution and settlement over one native client.
pub mod State
pub mod Refused
pub mod Evidence
pub mod Create
pub mod Prompt
pub mod Settle
pub mod Cancel
pub mod Retire
pub mod Quarantine
pub mod Touches
pub mod Accounts
pub mod Tasks
pub mod Machine
