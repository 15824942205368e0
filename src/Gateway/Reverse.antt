-- ===== src/Gateway/Reverse.antt =====
-- The translation for clients of the Messages API whose provider speaks the protocol of OpenAI
-- (bridge_anthropic_openai.go of internal/httpapi).
pub mod Messages
pub mod Requests
pub mod Answers
pub mod Events
pub mod Blocks
pub mod Stream
