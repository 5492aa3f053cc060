-- ===== src/Realtime.antt =====
-- src/realtime: presence of users in channels, broadcasts with a history. The lock of each
-- service makes a call one step.
pub mod Presence
pub mod Broadcast
