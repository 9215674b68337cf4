-- ===== src/Tests.antt =====
-- The theorems at concrete inputs, and runs of the code.
mod Operation
mod Files
mod Health
mod Worker
mod Node
mod Entry
mod Download
mod Settings
mod Search
mod Startup
mod Heartbeat
