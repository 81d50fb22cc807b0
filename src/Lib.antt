-- ===== src/Lib.antt =====
-- The hybrid FTP program: a control channel over TCP (server/src/control), and files over a data channel
-- of UDP datagrams, made reliable by selective repeat (shared/protocol and server/src/rdt).
--
-- The parts, from the wire up, and the files that model them:
--   Checksum: `internetChecksum` of shared/protocol/CheckSum.cpp.
--   Header: the 16-byte header, its codec and `decodeValidatedDatagram` of
--     shared/protocol/RdtHeader.cpp. A buffer is a list of bytes, numbers below 256.
--   Endpoint: the addresses that the transports compare.
--   Receiver: `RdtReceiver` of server/src/rdt. `receive_next` is `receiveNext`; Receiver/Buffer is the
--     `std::map` of chunks that came early; Receiver/Handshake has the constructors and
--     `initiateActiveHandshake`.
--   Double, Sender: `RdtSender` of server/src/rdt. `send_chunk`, `flush` and `poll` are `sendChunk`,
--     `flush` and `pollAcksAndRetransmit`; Sender/Rules is one rule for what the three keep.
--     Sender/ClientReady is `waitForClientReady`.
--   Network: a network that loses, repeats, reorders, delays and damages, between the two.
--   Files: server/src/filesystem and `sendFromReader` of server/src/datachannel. Files/Ascii is the
--     translator of line ends, Files/Reader and Files/AsciiReader are the readers, each an instance of
--     the record Reader; Files/Transfer sends what any reader gives over any transport.
--     Files/Writer is the writer and Files/Receive `receiveFile`.
--   FileSystem: the calls of std::filesystem, a parameter. FileSystem/Resolver and FileSystem/Directory
--     are `PathResolver` and `DirectoryService` of server/src/filesystem; FileSystem/Guarded says
--     what it is to touch nothing outside of the root, FileSystem/Confined follows what they touch, and
--     FileSystem/Quiet where they throw.
--   Control: server/src/control and server/src/common. Control/Parser, Control/Registry,
--     Control/ClientSession and Control/State are the parsed command, the table of clients, the session
--     and what a command works on. The commands of `commandMap` are in Control/Login,
--     Control/FileCommands, Control/DataCommands and Control/InfoCommands, with the texts of HELP in
--     Control/HelpTexts, and Control/Dispatch is `executeCommand`. Control/Transfers starts and ends
--     transfers, and Control/Workers is what their threads do. Control/Lines and Control/Session are
--     `handleClient`: the bytes of the connection, cut into commands. Control/Invariant, Control/Replied
--     and Control/Runs are what commands keep, that they answer, and runs of a session: commands and
--     ends of workers, in any order.
--   Client: the reading of replies in client/src/control/Session.cpp.
--   Text, ReplyCode: strings as lists of character codes, and the codes of shared/protocol.
--   Base: what the parts share. Tests: runs at concrete inputs.
--
-- Conventions. Numbers are natural numbers, with the wrap-around of the fixed widths written out.
-- What a call reads from outside (`recvfrom`, `sendto`, `select`, the clock, the abort predicate) is
-- an argument, a record of answers in the order in which the code asks: no theorem assumes anything
-- of them but what its hypotheses say. A list of answers is the bound of each loop; a call whose
-- answers run out is not finished, which its result says (`blocked` or `none`). The handshakes ask
-- ten times at most, so ten answers are enough. The fold of the checksum is by well-founded recursion
-- on the sum. The arithmetic of `double` is a parameter (Double), so the theorems on the sender hold
-- for any rounding.
--
-- One step of the control channel is one command of the control thread, or the end of a worker: its last
-- work on the files, an argument, and its section under the reply lock. Where a command waits for a
-- worker (ABOR and the end of the session), the end of the worker is part of the step. What the system
-- answers in the course of a command is an argument (Answers), among it the numbers that `sscanf_s` reads.
-- `handle_client` takes, beside them, which worker ends before which command. A worker's end between
-- two steps of one command is not looked at: while a transfer is active a command other than ABOR is
-- refused.
--
-- The file system's queries give an error beside their value. Where the code asks without a
-- `std::error_code`, an error is an exception, the event `threw`: nothing catches it, so the process
-- ends. An open file has a place, or none, at which its reads begin to fail.
--
-- The loop over the lines of a buffer has as much fuel as the buffer has bytes, and each round takes one
-- at least; the search for a free name of STOU has the 10000 attempts of the source.
--
-- Not modelled: CHAOS_MODE 1, a switch for tests; the creation and closing of sockets and the loop of
-- `accept`, which only call the operating system; `sendFile` around `sendFromReader`; the client's own
-- copies of the transport and its commands; SHA-256, which calls the operating system's library; logging;
-- exceptions for want of memory, or where a path has no text in the system's character set.
pub mod Base
pub mod Checksum
pub mod Header
pub mod Endpoint
pub mod Receiver
pub mod Double
pub mod Sender
pub mod Network
pub mod Files
pub mod Text
pub mod ReplyCode
pub mod FileSystem
pub mod Control
pub mod Client
mod Tests
