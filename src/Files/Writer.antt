-- ===== src/Files/Writer.antt =====
-- server/src/filesystem/ChunkedFileWriter.cpp: a file that is written under a temporary name and takes
-- its destination's place when it is committed. The answers of the file system are arguments.
use socket_programming.Base.{
  ℕ, ◌+◌, ◌%◌, ◌^◌, Bool, true, false, not, ◌&&◌, ◌||◌, List, [], ◌∷◌, ◌++◌, Option, none, some,
  ◌==◌, if◌then◌else◌,
}

pub record ChunkedFileWriter : Type 0 where
  pub destination : Option (List ℕ)  -- what the destination's path holds, if there is a file
  pub temporary : Option (List ℕ)  -- what was written to the temporary file, if there is one
  pub stream_open : Bool
  pub stream_good : Bool
  pub next_expected_sequence : ℕ
  pub committed : Bool
  pub valid : Bool

-- The member initialisers.
abbrev pub blank : Option (List ℕ) → ChunkedFileWriter
blank destination = record {
  destination = destination;
  temporary = none;
  stream_open = false;
  stream_good = true;
  next_expected_sequence = 0;
  committed = false;
  valid = false;
}

-- The constructor: whether the path is empty, whether it has an absolute form with a parent, whether
-- a temporary file could be made, and opened.
unfoldable pub new_writer : Bool → Bool → Bool → Bool → Option (List ℕ) → ChunkedFileWriter
new_writer path_empty absolute_ok temporary_made opened destination =
    if path_empty
    then blank destination
    else if not absolute_ok || not temporary_made
    then blank destination
    else if opened
    then record (blank destination) { temporary = some []; stream_open = true; valid = true }
    else blank destination

-- What a write to the stream does: all of it, or a part and an error, after which the stream fails.
pub data Written : Type 0 where
  whole : Written
  broken : List ℕ → Written

abbrev pub extend : Option (List ℕ) → List ℕ → Option (List ℕ)
extend none more = none
extend (some bytes) more = some (bytes ++ more)

abbrev pub write_good : Written → List ℕ → ChunkedFileWriter → ChunkedFileWriter
write_good whole bytes w = record w { temporary = extend w.temporary bytes }
write_good (broken part) bytes w = record w {
  temporary = extend w.temporary part;
  stream_good = false;
}

-- `output.write`: a stream that has failed takes nothing.
abbrev pub write : Written → List ℕ → ChunkedFileWriter → ChunkedFileWriter
write answer bytes w = if w.stream_good then write_good answer bytes w else w

abbrev pub count_chunk : ChunkedFileWriter → ChunkedFileWriter
count_chunk w = record w { next_expected_sequence = (w.next_expected_sequence + 1) % 2 ^ 32 }

abbrev pub put_chunk : Written → List ℕ → ChunkedFileWriter → ChunkedFileWriter × Bool
put_chunk answer [] w = (count_chunk w, true)
put_chunk answer (b ∷ bs) w =
    let w' = write answer (b ∷ bs) w in
    if w'.stream_good then (count_chunk w', true) else (w', false)

-- `appendChunk`
unfoldable pub append_chunk : Written → ℕ → List ℕ → ChunkedFileWriter → ChunkedFileWriter × Bool
append_chunk answer seq bytes w =
    if not w.valid || w.committed || not (seq == w.next_expected_sequence)
    then (w, false)
    else put_chunk answer bytes w

-- What `flush`, `close` and `MoveFileExW` answer.
pub record CommitIo : Type 0 where
  pub flushed : Bool
  pub closed : Bool
  pub moved : Bool

-- `commit`
unfoldable pub commit : CommitIo → ChunkedFileWriter → ChunkedFileWriter × Bool
commit io w =
    if not w.valid || w.committed
    then (w, false)
    else if not (w.stream_good && io.flushed)
    then (record w { stream_good = false }, false)
    else if not io.closed
    then (record w { stream_open = false; stream_good = false }, false)
    else if not io.moved
    then (record w { stream_open = false }, false)
    else (
      record w {
        destination = w.temporary;
        temporary = none;
        stream_open = false;
        committed = true;
        valid = false;
      },
      true,
    )

-- `abort`, which the destructor calls
unfoldable pub abort : ChunkedFileWriter → ChunkedFileWriter
abort w =
    if w.committed then w else record w { temporary = none; stream_open = false; valid = false }
