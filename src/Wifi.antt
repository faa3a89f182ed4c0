-- ===== src/Wifi.antt =====
-- The network recovery policy: core/src/wifi.rs, a child for each of its two counters, and
-- the task of app/src/net.rs that runs on one of them.
pub mod Watchdog
pub mod Rejoin
pub mod Supervisor
