-- ===== src/Parser.antt =====
-- src/eda_lab/parser.py
pub mod Numbers
pub mod Provenance
pub mod Synthetic
pub mod OpenSta
pub mod Report
