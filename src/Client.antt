-- ===== src/Client.antt =====
-- media/js/cometd.js, org.cometd.Cometd.
pub mod State
pub mod Keeps
pub mod Sound
pub mod Extensions
pub mod Sending
pub mod Connection
pub mod Responses
pub mod Messages
pub mod Api
pub mod Events
pub mod Retry
pub mod Batches
pub mod Announced
pub mod Chain
pub mod Numbered
pub mod Held
pub mod Polls
pub mod Notified
pub mod Down
pub mod Configure
pub mod Joined
