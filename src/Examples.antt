-- ===== src/Examples.antt =====
-- The theorems at concrete rows: one Run, its Attempt, its host and its request.
mod Scene
mod Attempts
mod Runs
mod Hosts
mod Central
mod Passes
mod Reports
mod Processes
mod Queue
mod Requests
