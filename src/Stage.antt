-- ===== src/Stage.antt =====
-- apps/frontend/src/components/MainStage.tsx: the stage of a room that the user has joined.
pub mod Json
pub mod Parse
pub mod Tracks
pub mod Scene
pub mod Link
