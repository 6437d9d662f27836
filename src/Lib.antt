-- ===== src/Lib.antt =====
-- The web client of Ivena Meet, a meeting room with chat and broadcast (apps/frontend/src): the
-- state that its hooks keep, the requests that they send, and the text formats in between.
--
-- The parts of the program. Layout.tsx holds the session, the messages and the logs, and hands them
-- to Sidebar.tsx, which calls five hooks: useSessionState.ts keeps the connection alive,
-- useRoomState.ts joins, leaves and hosts, useChatState.ts keeps the chat list, useAvatarState.ts
-- the user's picture, usePresenceState.ts the panels. All of them send requests through the client
-- of lib/api.ts, which adds the tokens, and read the types of lib/types.ts. MainStage.tsx shows the
-- tracks of the LiveKit room, passes the chat and the members on to Layout.tsx, and carries the
-- requests and verdicts on cameras and shared screens between members and host. ChatPanel.tsx shows
-- the list of Layout.tsx.
--
-- Files. Base: strings as lists of UTF-16 units, integers, lists, equality tests. Types: the records
-- of lib/types.ts; a field `name?: A | null` is `Opt A`. Chat.Message and Chat.Merge: mergeMessages
-- with its two indexes as association lists, and the comparator. Chat.State: the handlers of
-- useChatState.ts on the message list; Chat.Stream: the effect that keeps the event stream open;
-- Chat.View: scrolling. Api.Sse: parseSseFrame and the loop of streamMessages; Api.Client: the
-- endpoints as the requests that they send and the interceptor. Session: useSessionState.ts.
-- Storage: localStorage. Avatar: lib/avatar.ts, Avatar.Sync: useAvatarState.ts. Theme: lib/theme.ts.
-- Presence: usePresenceState.ts. World: the state that useRoomState.ts and useAvatarState.ts share,
-- World.Effect its asynchronous functions, World.Env what the client does not implement. Room:
-- useRoomState.ts, by operation: Room.Urls, Room.Enter, Room.Join, Room.Leave, Room.Invites,
-- Room.Broadcast, Room.Moderation. Logs: pushLog of Layout.tsx and the effect of Sidebar.tsx that
-- reads the log. Stage.Json and Stage.Parse: the bytes of the LiveKit data channel; Stage.Tracks:
-- which tracks MainStage.tsx shows; Stage.Scene: the state of its StageScene and its handlers, with
-- what it asks and decides in Stage.Scene.Asking and the buttons in Stage.Scene.Toggles. Stage.Link:
-- the handlers of MainStage for the connection. Layout.Screen, Layout.Chat, Layout.Signal and
-- Layout.Permission: the handlers of Layout.tsx for the division of the screen, the messages, the
-- LiveKit signal and the host's verdicts; Layout.Stored: what it keeps in the local storage.
-- ChatPanel: ChatPanel.tsx. Sidebar: the timeline of Sidebar.tsx, with the patterns for lines of the
-- log in Sidebar.LogLines, and in Sidebar.Reading a reader of its items. Tests: runs on concrete
-- data.
--
-- How state and operations correspond. A hook's `useState` fields and refs are the fields of a
-- record. In Chat.State, Chat.Stream and Session a handler that awaits is one function for each
-- stretch between two awaits, and a list of events says how they interleave; so it is in
-- Stage.Scene, Layout and ChatPanel. A handler of Layout.Screen takes the state that its render has
-- captured beside the one of the moment. The codec of the data channel is a record of two functions
-- and their law. In Room and Avatar.Sync an asynchronous function runs from its start to its end on
-- one World, and takes the World that its render captured as an argument of its own; every request
-- is answered or refused. An exception is `thrown`; `try`, `finally` and `catch` are functions on
-- it. The lines of a log that a state holds are all kept and stand without their time; Logs models
-- what pushLog keeps of them. Loops are structural recursion, but for the loop of Api.Sse that cuts
-- frames from the buffer: it runs on fuel, one more than the length of the buffer, and each frame
-- takes at least two units off it.
--
-- Numbers are whole and exact, also past 2 ^ 53 and in JSON, where the source has floating point.
--
-- Not modelled: rendering, `fetch`, axios, the LiveKit client and the clock, which are the
-- parameters of World.Env or of the definitions, as are JSON.parse, toLowerCase and
-- encodeURIComponent; the timers that hide notices; a message stream that a handler closes while a
-- chunk is read, and a heartbeat that is answered after a later render; the backend (src), the copy
-- of livekit-api (vendor), scripts and deployment files.
pub mod Base
pub mod Types
pub mod Chat
pub mod Api
pub mod Session
pub mod Storage
pub mod Avatar
pub mod Theme
pub mod Presence
pub mod World
pub mod Room
pub mod Layout
pub mod ChatPanel
pub mod Sidebar
pub mod Logs
pub mod Stage
mod Tests
