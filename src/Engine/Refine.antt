-- ===== src/Engine/Refine.antt =====
-- The operations of the lease engine implement the protocol of Engine/Protocol.antt.
pub mod Steps
pub mod FollowUp
pub mod Endings
pub mod Lease
pub mod Held
pub mod Complete
pub mod Claim
pub mod Stop
pub mod Prompt
pub mod Requests
