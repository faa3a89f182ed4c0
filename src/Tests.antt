-- ===== src/Tests.antt =====
-- The theorems at concrete inputs.
mod Devices
mod Texts
mod Update
mod Network
mod Messages
mod Tasks
mod Build
mod Storage
