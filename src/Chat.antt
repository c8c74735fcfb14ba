-- ===== src/Chat.antt =====
-- web/src/lib/messageReducer.ts and web/src/hooks/useChatMessages.ts: the messages of a chat, the
-- events that change them, and the state of the chat that is open.
pub mod Message
pub mod Event
pub mod Parts
pub mod Updates
pub mod Reducer
pub mod Transcript
pub mod Revisions
pub mod Dialogs
pub mod Answers
pub mod Cases
pub mod Replay
pub mod Growth
pub mod History
pub mod Users
pub mod Written
pub mod Terminal
pub mod Kinds
pub mod Questions
pub mod Session
mod Tests
