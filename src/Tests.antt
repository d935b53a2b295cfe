-- ===== src/Tests.antt =====
-- The theorems at concrete inputs, with the parameters of the model instantiated.
pub mod Coder
pub mod Server
pub mod Tree
pub mod Update
pub mod Frames
pub mod Commit
pub mod Signaling
pub mod Topics
pub mod Config
pub mod Quiet
pub mod WebRtc
pub mod Commands
pub mod Converge
