-- ===== src/Examples.antt =====
-- Runs of the program at concrete inputs.
mod Fixtures
mod Status
mod Missing
mod Defaults
mod Pods
mod Ready
mod Controller
mod Gang
mod Cleanup
mod Runner
mod Runs
mod Tools
mod Commands
