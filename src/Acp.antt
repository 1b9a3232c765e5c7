-- ===== src/Acp.antt =====
-- internal/acp/fence.go: the fence that refuses commands of git and gh by their text.
pub mod Lex
pub mod Fence
pub mod Laws
pub mod Ends
pub mod Push
pub mod Plain
pub mod Gate
pub mod Allowed
pub mod Tests
