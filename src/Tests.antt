-- ===== src/Tests.antt =====
-- Concrete instances of what is outside the repository, and the examples of the properties.
mod Codec
mod Authentication
mod Nested
mod Values
mod ValueLaws
mod Messages
mod Libraries
mod MediaMessages
mod MediaChannels
mod Deliveries
mod Frames
mod Channels
mod Calls
mod Statuses
mod Lifecycle
