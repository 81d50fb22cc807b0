-- ===== src/Tests.antt =====
-- Runs of the model at concrete inputs.
mod Data
mod Wire
mod Receiver
mod Sender
mod Network
mod Files
mod Receive
mod ClientReady
mod ControlData
mod Control
mod Session
mod Replies
mod Workers
