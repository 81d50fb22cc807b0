-- ===== src/Files/Transfer/Ascii.antt =====
-- `sendFromReader` over the readers of server/src/filesystem: what of a file is sent in either mode.
use socket_programming.Base.{ℕ, ◌≡◌, true, false, List, [], Option, some}
use socket_programming.Files.Ascii.{normalize_to_crlf}
use socket_programming.Files.Reader.{ChunkedFileReader, file_reader, readable}
use socket_programming.Files.AsciiReader.{AsciiChunkedReader, ascii_reader}
use socket_programming.Files.Transfer.{Transport, send_from_reader}
use socket_programming.Files.Transfer.Complete.{SendsSmall, send_from_reader-Sends}

-- The constructors, over an open file whose reads fail at a place, or nowhere.
abbrev pub open_file : Option ℕ → List ℕ → ChunkedFileReader
open_file fails_in bytes = record { stream_open = true; rest = bytes; fails_in = fails_in }

abbrev pub open_text : Option ℕ → List ℕ → AsciiChunkedReader
open_text fails_in bytes = record {
  reader = open_file fails_in bytes;
  translator = (false, false);
  pending_output = [];
}

-- In binary mode a transfer that returns true has sent the bytes of the file up to the first read that
-- fails, or all of them if none does, and no others, in numbered chunks of at most 1024, the last one
-- alone marked final.
pub file_reader-Sends :
    (transport : Transport) (rounds : ℕ) (fails_in : Option ℕ) (bytes : List ℕ) (t : transport.T)
    → (send_from_reader file_reader transport rounds (open_file fails_in bytes) t).2 ≡ some true
    → SendsSmall 0
        (send_from_reader file_reader transport rounds (open_file fails_in bytes) t).1
        (readable fails_in bytes)
file_reader-Sends transport rounds fails_in bytes t =
    send_from_reader-Sends file_reader transport rounds (open_file fails_in bytes) t

-- In ASCII mode a transfer that returns true has sent the bytes of the file up to the first read that
-- fails, or all of them if none does, with their line ends translated as one text, wherever the chunks
-- are cut, in numbered chunks of at most 1024 bytes, the last one alone marked final.
pub ascii_reader-Sends :
    (transport : Transport) (rounds : ℕ) (fails_in : Option ℕ) (bytes : List ℕ) (t : transport.T)
    → (send_from_reader ascii_reader transport rounds (open_text fails_in bytes) t).2 ≡ some true
    → SendsSmall 0
        (send_from_reader ascii_reader transport rounds (open_text fails_in bytes) t).1
        (normalize_to_crlf (readable fails_in bytes) false).0
ascii_reader-Sends transport rounds fails_in bytes t =
    send_from_reader-Sends ascii_reader transport rounds (open_text fails_in bytes) t
