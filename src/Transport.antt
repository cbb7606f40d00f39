-- ===== src/Transport.antt =====
-- media/js/cometd.js, org.cometd.Transport and the two transports that extend it.
pub mod State
pub mod Requests
pub mod Polling
pub mod Bounds
pub mod Order
pub mod Kept
pub mod Failing
pub mod Drain
pub mod Domain
pub mod Expiry
pub mod Watched
