-- ===== src/Types.antt =====
-- apps/frontend/src/lib/types.ts: the values that the browser exchanges with the server and with
-- the other participants.
mod Common
mod Session
mod Invites
mod Broadcast
mod Moderation
mod Chat
mod Stage
unfoldable pub use Common.*
pub use Session.*
pub use Invites.*
pub use Broadcast.*
pub use Moderation.*
pub use Chat.*
pub use Stage.*
