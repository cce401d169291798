-- ===== src/Examples.antt =====
-- The theorems at concrete inputs, and runs of the modelled code.
mod Api
mod Requests
mod Approvals
mod Recollection
mod Container
mod Host
mod Page
mod Wired
mod Tools
mod Decisions
mod Threads
mod Engine
mod Sessions
mod Process
