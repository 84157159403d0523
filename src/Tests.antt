-- ===== src/Tests.antt =====
-- Runs of the model on concrete data, and the theorems at it.
mod Validation
mod Arguments
mod Screens
mod Runs
mod Mounts
mod Processes
mod Children
mod Boot
mod Paths
mod Verdicts
mod Sessions
mod CommandLine
