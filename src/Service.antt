-- ===== src/Service.antt =====
-- src/eda_lab/service.py
pub mod Text
pub mod Validation
pub mod Trust
pub mod Submit
pub mod Idempotency
pub mod Execute
pub mod Progress
pub mod Control
pub mod Beats
pub mod Recover
pub mod RecoverySafety
