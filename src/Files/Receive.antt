-- ===== src/Files/Receive.antt =====
-- `receiveFile` of server/src/datachannel/DataChannelSession.cpp.
pub mod Saved
pub mod Whole
use socket_programming.Base.{
  ℕ, Bool, true, false, not, ◌||◌, List, [], ◌∷◌, ◌++◌, Option, none, some, if◌then◌else◌,
}
use socket_programming.Files.Ascii.{AsciiTranslator, decode}
use socket_programming.Files.Writer.{
  ChunkedFileWriter, Written, CommitIo, new_writer, append_chunk, commit, abort,
}

-- What a call of `receiveNext` gives.
pub record Chunk : Type 0 where
  pub seq : ℕ
  pub bytes : List ℕ
  pub is_final : Bool

-- One round of the loop: the abort predicate, `receiveNext`, the predicate again, the write.
pub record Arrival : Type 0 where
  pub aborted : Bool
  pub received : Option Chunk
  pub aborted_after : Bool
  pub written : Written

abbrev pub translate : Bool → List ℕ → AsciiTranslator → List ℕ × AsciiTranslator
translate true bytes translator = decode bytes translator
translate false bytes translator = (bytes, translator)

-- The writer, and the value that the loop ends with: true after the final chunk, false for a return;
-- `none` while chunks are still awaited.
abbrev pub Receiving : Type 0
Receiving = ChunkedFileWriter × Option Bool

abbrev pub appended : ChunkedFileWriter × Bool → Bool → (ChunkedFileWriter → Receiving) → Receiving
appended (w, false) is_final rest = (w, some false)
appended (w, true) true rest = (w, some true)
appended (w, true) false rest = rest w

-- A chunk that was received, translated and appended.
abbrev pub take_chunk :
    Written
    → Chunk
    → List ℕ × AsciiTranslator
    → ChunkedFileWriter
    → (AsciiTranslator → ChunkedFileWriter → Receiving)
    → Receiving
take_chunk written c (bytes, translator) w rest =
    appended (append_chunk written c.seq bytes w) c.is_final (rest translator)

abbrev pub arrive :
    Option Chunk
    → Bool
    → Written
    → Bool
    → AsciiTranslator
    → ChunkedFileWriter
    → (AsciiTranslator → ChunkedFileWriter → Receiving)
    → Receiving
arrive none aborted written ascii translator w rest = (w, some false)
arrive (some c) true written ascii translator w rest = (w, some false)
arrive (some c) false written ascii translator w rest =
    take_chunk written c (translate ascii c.bytes translator) w rest

unfoldable pub receive_chunks :
    Bool → List Arrival → AsciiTranslator → ChunkedFileWriter → Receiving
receive_chunks ascii [] translator w = (w, none)
receive_chunks ascii (a ∷ rest) translator w =
    if a.aborted
    then (w, some false)
    else arrive a.received a.aborted_after a.written ascii translator w (receive_chunks ascii rest)

-- The end of the function, where the writer's destructor runs.
abbrev pub leave : ChunkedFileWriter × Bool → Receiving
leave (w, result) = (abort w, some result)

abbrev pub conclude : Bool → CommitIo → Receiving → Receiving
conclude aborted io (w, none) = (w, none)
conclude aborted io (w, some false) = leave (w, false)
conclude true io (w, some true) = leave (w, false)
conclude false io (w, some true) = leave (commit io w)

-- `receiveFile`, from the writer that the constructor has made.
unfoldable pub receive_file : Bool → List Arrival → Bool → CommitIo → ChunkedFileWriter → Receiving
unfolding receive_chunks abort
receive_file ascii arrivals aborted io w =
    if not w.valid
    then leave (w, false)
    else conclude aborted io (receive_chunks ascii arrivals (false, false) w)
