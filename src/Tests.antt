-- ===== src/Tests.antt =====
-- The theorems at concrete inputs, with their hypotheses shown to hold there.
mod Queues
mod Sched
mod Memory
mod Files
mod Devices
mod Registry
mod Paging
mod Console
mod Opening
mod Calls
mod Typing
mod Booting
mod Drivers
mod Startup
