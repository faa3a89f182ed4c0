-- ===== src/Ota.antt =====
-- The update policy of core/src/ota and its glue in app/src/ota, one child for each part.
pub mod SelfTest
pub mod Text
pub mod Transport
pub mod Head
pub mod Base64
pub mod Session
pub mod Url
pub mod Failure
pub mod Link
pub mod Check
