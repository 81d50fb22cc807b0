-- ===== src/Files.antt =====
-- The file side of the server: server/src/filesystem, and the transfers of
-- server/src/datachannel/DataChannelSession.cpp.
pub mod Ascii
pub mod Reader
pub mod AsciiReader
pub mod Transfer
pub mod Writer
pub mod Receive
