-- ===== src/Extension.antt =====
-- The browser extension: extension/background.js and the helpers of extension/lib.
pub mod Command
pub mod Frame
pub mod Pending
pub mod Poll
pub mod Session
pub mod TabMatch
