-- ===== src/Proto.antt =====
-- google_cast_message.h and google_cast_message.cpp: the message classes that the protocol buffer
-- compiler made of cast_channel.proto, over the wire format of its runtime library.
pub mod Runtime
pub mod Fields
pub mod Parser
pub mod Accessors
pub mod Nested
pub mod MessageField
pub mod EnumMessage
pub mod AuthEnums
pub mod AuthChallenge
pub mod AuthError
pub mod AuthResponse
pub mod DeviceAuthMessage
pub mod StringField
pub mod EnumField
pub mod CastMessage
