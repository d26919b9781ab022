-- ===== src/Tests.antt =====
-- The theorems at concrete inputs: a camera's bytes, replies and notifications.
mod Sample
mod Sockets
mod Notifications
mod Requests
mod Settings
mod Clients
mod Frames
mod Streams
mod Discoveries
mod Docks
mod Sources
