-- ===== src/Cast.antt =====
-- cast_message.h and cast_message.cpp.
pub mod Address
pub mod Message
pub mod Serialize
