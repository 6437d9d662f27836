-- ===== src/Layout.antt =====
-- Layout.tsx: the parent of the side bar, the stage and the chat panel.
pub mod Screen
pub mod Chat
pub mod Signal
pub mod Permission
pub mod Stored
