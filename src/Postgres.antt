-- ===== src/Postgres.antt =====
-- src/eda_lab/postgres_store.py
pub mod Finalize
pub mod Divergence
pub mod Dispatch
pub mod Claims
pub mod Statements
pub mod Fence
