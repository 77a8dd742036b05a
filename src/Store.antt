-- ===== src/Store.antt =====
-- src/eda_lab/store.py
pub mod Schema
pub mod Result
pub mod Runs
pub mod Attempts
pub mod Hosts
pub mod Requests
pub mod Finalize
pub mod Revisions
pub mod Pages
pub mod Keys
pub mod Budget
pub mod Witnesses
pub mod Sessions
pub mod Comparison
pub mod Delivery
pub mod Atomic
pub mod Written
pub mod Abandon
pub mod Fence
pub mod Terminal
pub mod History
pub mod Preserves
