-- ===== src/Client/Polls.antt =====
-- media/js/cometd.js: the cycle of a connected client, of a timeout that connects and an answer that sets
-- the next timeout.
pub mod Quiet
pub mod Line
pub mod Sent
pub mod Answered
pub mod Cycle
pub mod Shaken
pub mod Shaking
pub mod Failed
pub mod Persists
