-- ===== src/Rtm.antt =====
-- signaling/rtm: the RTM manager.
pub mod World
pub mod Hash
pub mod Group
pub mod Channel
pub mod Close
pub mod Webrtc
pub mod Chats
pub mod Sessions
pub mod Dispatch
pub mod Lifetime
pub mod Http
pub mod Example
