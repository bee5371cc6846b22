-- ===== src/Receiver.antt =====
-- The receiver: its messages, and the channel that launches and joins applications.
pub mod Messages
pub mod Channel
