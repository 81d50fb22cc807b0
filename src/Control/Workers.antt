-- ===== src/Control/Workers.antt =====
-- What the workers do: `appendAtomically` and the threads that `startUploadTransfer` and
-- `startDownloadTransfer` start, of server/src/control/CommandDispatcher.cpp.
pub mod Kept
use socket_programming.Base.{
  ℕ, Bool, true, false, not, ◌&&◌, ◌||◌, List, [], ◌∷◌, Option, none, some, if◌then◌else◌,
}
use socket_programming.Text.{Text, is_empty}
use socket_programming.FileSystem.{FilePath, FileSystem, create_sibling_temporary_path}
use socket_programming.FileSystem.Directory.{when_some}
use socket_programming.Control.ClientSession.{
  TransferMode, binary, ascii, UploadKind, store, unique, append,
}
use socket_programming.Control.Transfers.{is_unique, transfer_complete_message}

abbrev pub is_binary : TransferMode → Bool
is_binary binary = true
is_binary ascii = false

-- What the worker of a download asks: whether the peer is ready, the flag, and `sendFile`, which gives
-- whether it succeeded and the digest.
pub record DownloadIo : Type 0 where
  pub ready : Bool
  pub aborted : Bool
  pub sent : Bool × Text

-- The worker of a download: whether it succeeded, and the message of a success.
unfoldable pub download_work : DownloadIo → TransferMode → Bool × Text
unfolding transfer_complete_message
download_work io mode =
    let (success, digest) = if io.ready && not io.aborted then io.sent else (false, []) in
    (success, transfer_complete_message (if is_binary mode then digest else []) [] [])

module _ (fs : FileSystem) where
  open fs use {W}

  -- `none` is the return value false, `some` the hash.
  abbrev pub Appended : Type 0
  Appended = W × Option Text

  -- The guard's destructor, where the new file was not moved.
  abbrev pub cleaned : FilePath → W → Appended
  cleaned combined w = ((fs.remove combined w).0, none)

  abbrev pub or_cleaned : FilePath → W × Bool → (W → Appended) → Appended
  or_cleaned combined (w, true) rest = rest w
  or_cleaned combined (w, false) rest = cleaned combined w

  -- The bytes that the destination has, put into the new file.
  abbrev pub existing_bytes : FilePath → FilePath → Bool × Bool → W → W × Bool
  existing_bytes destination combined (true, error) w =
      if error
      then (w, false)
      else if not (fs.is_regular_file w destination).0
      then (w, false)
      else fs.copy_into destination combined w
  existing_bytes destination combined (false, error) w = (w, not error)

  abbrev pub hashed : Bool → FilePath → W → Text
  hashed wanted combined w = if wanted then fs.hash_file w combined else []

  abbrev pub moved : FilePath → Text → W × Bool → Appended
  moved combined hash (w, true) = (w, some hash)
  moved combined hash (w, false) = cleaned combined w

  -- The steps on the new file, from the last to the first.
  abbrev pub hash_and_move : FilePath → Bool → FilePath → W → Appended
  hash_and_move destination wanted combined w =
      if wanted && is_empty (hashed wanted combined w)
      then cleaned combined w
      else moved combined (hashed wanted combined w) (fs.rename combined destination w)

  abbrev pub close_new : FilePath → Bool → FilePath → W → Appended
  close_new destination wanted combined w =
      or_cleaned combined (fs.close_stream combined w) (hash_and_move destination wanted combined)

  abbrev pub add_incoming : FilePath → FilePath → Bool → FilePath → W → Appended
  add_incoming destination incoming wanted combined w =
      or_cleaned combined (fs.copy_into incoming combined w) (close_new destination wanted combined)

  abbrev pub add_existing : FilePath → FilePath → Bool → FilePath → W → Appended
  add_existing destination incoming wanted combined w =
      or_cleaned combined (existing_bytes destination combined (fs.exists w destination) w)
        (add_incoming destination incoming wanted combined)

  abbrev pub combine : FilePath → FilePath → Bool → FilePath → W → Appended
  combine destination incoming wanted combined w =
      or_cleaned combined (fs.truncate combined w)
        (add_existing destination incoming wanted combined)

  abbrev pub combine_if : W × Option FilePath → FilePath → FilePath → Bool → Appended
  combine_if (w, none) destination incoming wanted = (w, none)
  combine_if (w, some combined) destination incoming wanted =
      combine destination incoming wanted combined w

  -- `appendAtomically`, given whether the hash is wanted.
  unfoldable pub append_atomically : FilePath → FilePath → Bool → W → Appended
  append_atomically destination incoming wanted w =
      combine_if (create_sibling_temporary_path fs destination w) destination incoming wanted

  -- What the worker asks of the transport and of the session: whether the peer is ready, the flag before
  -- and behind the transfer, and `receiveFile`.
  pub record UploadIo : Type 0 where
    pub ready : Bool
    pub aborted : Bool
    pub aborted_after : Bool
    pub receive_file : FilePath → W → W × Bool

  -- Behind the transfer: the files, whether it succeeded, and the hashes of the payload and of the whole.
  abbrev pub Uploaded : Type 0
  Uploaded = W × Bool × Text × Text

  abbrev pub received : Bool → (W → W × Bool) → W → W × Bool
  received true receive w = receive w
  received false receive w = (w, false)

  abbrev pub appended_as : Text → Appended → Uploaded
  appended_as payload_hash (w, none) = (w, false, payload_hash, [])
  appended_as payload_hash (w, some final_hash) = (w, true, payload_hash, final_hash)

  -- An APPE: the staging file is put behind the destination.
  abbrev pub append_staged : FilePath → FilePath → TransferMode → W → Uploaded
  append_staged destination staging mode w =
      let payload_hash = hashed (is_binary mode) staging w in
      if is_binary mode && is_empty payload_hash
      then (w, false, payload_hash, [])
      else appended_as payload_hash (append_atomically destination staging (is_binary mode) w)

  abbrev pub uploaded : UploadKind → Bool → FilePath → FilePath → TransferMode → W × Bool → Uploaded
  uploaded append false destination staging mode (w, true) =
      append_staged destination staging mode w
  uploaded append true destination staging mode (w, true) = (w, true, [], [])
  uploaded store aborted destination staging mode (w, true) = (w, true, [], [])
  uploaded unique aborted destination staging mode (w, true) = (w, true, [], [])
  uploaded kind aborted destination staging mode (w, false) = (w, false, [], [])

  abbrev pub remove_staging : Option FilePath → W → W
  remove_staging none w = w
  remove_staging (some p) w = (fs.remove p w).0

  abbrev pub remove_failed : Bool → FilePath → W → W
  remove_failed true destination w = (fs.remove destination w).0
  remove_failed false destination w = w

  abbrev pub is_append : UploadKind → Bool
  is_append store = false
  is_append unique = false
  is_append append = true

  -- The end of the worker: the clean-up, and the message.
  abbrev pub concluded :
      FilePath → Option FilePath → TransferMode → UploadKind → Text → Uploaded → W × Bool × Text
  concluded destination staging mode kind filename (w, success, payload_hash, final_hash) =
      let w' =
        remove_failed (not success && is_unique kind) destination (remove_staging staging w) in
      let hash =
        if success && is_binary mode && not (is_append kind)
        then fs.hash_file w' destination
        else payload_hash in
      (w', success, transfer_complete_message hash filename final_hash)

  abbrev pub receive_path : FilePath → Option FilePath → FilePath
  receive_path destination none = destination
  receive_path destination (some staging) = staging

  -- The worker: the files, whether the transfer succeeded, and the message of a success.
  unfoldable pub upload_work :
      UploadIo → FilePath → Option FilePath → TransferMode → UploadKind → Text → W → W × Bool × Text
  unfolding append_atomically transfer_complete_message
  upload_work io destination staging mode kind filename w =
      let path = receive_path destination staging in
      concluded destination staging mode kind filename (
        uploaded kind io.aborted_after destination path mode
          (received (io.ready && not io.aborted) (io.receive_file path) w))
