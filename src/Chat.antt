-- ===== src/Chat.antt =====
-- The chat: apps/frontend/src/hooks/sidebar/useChatState.ts and lib/chat.ts.
pub mod Message
pub mod Order
pub mod Merge
pub mod State
pub mod Stream
pub mod View
