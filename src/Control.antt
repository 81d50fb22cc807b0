-- ===== src/Control.antt =====
-- The control channel of the server: server/src/control and server/src/common.
pub mod Registry
pub mod Parser
pub mod ClientSession
pub mod State
pub mod Transfers
pub mod Login
pub mod HelpTexts
pub mod FileCommands
pub mod DataCommands
pub mod InfoCommands
pub mod Dispatch
pub mod Invariant
pub mod Runs
pub mod Lines
pub mod Session
pub mod Replied
pub mod Workers
