-- ===== src/Collab.antt =====
-- router/websocket/betterfiles_collaboration_ot.go: the shared text document of the file editor.
pub mod Text
pub mod Ot
pub mod Edits
pub mod Document
pub mod Names
pub mod Session
pub mod Rooms
mod Examples
