-- ===== src/Control/Transfers.antt =====
-- The start and the end of a transfer, as the control session sees them: `startDownloadTransfer`,
-- `startUploadTransfer` and `finishTransfer` of server/src/control/CommandDispatcher.cpp.
use socket_programming.Base.{Bool, true, false, not, [], ◌++◌, Option, none, some, if◌then◌else◌}
use socket_programming.Text.{Text, codes, is_empty}
use socket_programming.ReplyCode.{
  cant_open_data_connection, file_status_okay, transfer_complete, transfer_aborted,
  action_not_taken,
}
use socket_programming.FileSystem.{FilePath, FileSystem, create_sibling_temporary_path}
use socket_programming.Control.ClientSession.{
  ClientSession, Job, download, upload, DataChannelMode, no_channel, passive, active, UploadKind,
  store, unique, append, no_endpoint,
}
use socket_programming.Control.State.{
  State, Answers, started, emit, session_reply, clear_data_state, join_completed_transfer,
}

-- `transferCompleteMessage`
unfoldable pub transfer_complete_message : Text → Text → Text → Text
transfer_complete_message hash unique_filename final_hash =
    codes "Transfer complete."
    ++ (if is_empty unique_filename then [] else codes " Filename=" ++ unique_filename)
    ++ (if is_empty hash then [] else codes " SHA256=" ++ hash)
    ++ (if is_empty final_hash then [] else codes " FINAL_SHA256=" ++ final_hash)

abbrev pub is_passive : DataChannelMode → Bool
is_passive no_channel = false
is_passive passive = true
is_passive active = false

abbrev pub is_unique : UploadKind → Bool
is_unique store = false
is_unique unique = true
is_unique append = false

-- What becomes of the session's channel once a transport has taken it.
abbrev pub channel_taken : ClientSession → ClientSession
channel_taken s = record s {
  pending_data_socket = if is_passive s.data_channel_mode then none else s.pending_data_socket;
  data_channel_mode = no_channel;
  pending_peer_addr = no_endpoint;
}

-- An upload gives the session a name; a download does not.
abbrev pub set_name : Option Text → ClientSession → ClientSession
set_name none s = s
set_name (some filename) s = record s { pending_unique_filename = filename }

abbrev pub clear_name : Option Text → ClientSession → ClientSession
clear_name none s = s
clear_name (some filename) s = record s { pending_unique_filename = [] }

abbrev pub nothing_to_undo {ℓ} : {A : Type ℓ} → A → A
nothing_to_undo x = x

-- An upload's worker clears the name of the upload.
abbrev pub without_name : Option Job → ClientSession → ClientSession
without_name none s = s
without_name (some (download source mode passive_)) s = s
without_name (some (upload destination staging mode passive_ peer kind filename)) s = record s {
  pending_unique_filename = [];
}

module _ {fs : FileSystem} where
  -- `fs::remove`, whose result is ignored.
  abbrev pub discard : FilePath → State fs → State fs
  discard p st = record st { files = (fs.remove p st.files).0 }

  abbrev pub discard_some : Option FilePath → State fs → State fs
  discard_some none st = st
  discard_some (some p) st = discard p st

  abbrev pub discard_if : Bool → FilePath → State fs → State fs
  discard_if true p st = discard p st
  discard_if false p st = st

  -- From the choice of the transport to the start of the worker. `undo` cleans up after a failure;
  -- `filename` is the name of an upload.
  abbrev pub launch : Answers fs → Job → Option Text → (State fs → State fs) → State fs → State fs
  launch answers job filename undo st =
      let taken = record st { session = channel_taken st.session } in
      if not answers.transport_valid
      then session_reply cant_open_data_connection (codes "Could not open data connection.")
          (undo taken)
      else let begun =
          session_reply file_status_okay (codes "Opening data connection.") (record taken {
            session =
                set_name filename
                  (record taken.session { abort_requested = false; transfer_active = true });
          }) in
        if answers.thread_started
        then emit (started job)
            (record begun { session = record begun.session { transfer_worker = some job } })
        else session_reply cant_open_data_connection (codes "Could not start transfer worker.") (
            undo (record begun {
              session = clear_name filename (record begun.session { transfer_active = false });
            }))

  abbrev pub download_over : DataChannelMode → Answers fs → FilePath → State fs → State fs
  download_over no_channel answers source st =
      session_reply cant_open_data_connection (codes "Use PORT or PASV before RETR.") st
  download_over passive answers source st =
      launch answers (download source st.session.transfer_mode true) none nothing_to_undo
        (join_completed_transfer st)
  download_over active answers source st =
      launch answers (download source st.session.transfer_mode false) none nothing_to_undo
        (join_completed_transfer st)

  -- `startDownloadTransfer`
  unfoldable pub start_download_transfer : Answers fs → FilePath → State fs → State fs
  start_download_transfer answers source st =
      download_over st.session.data_channel_mode answers source st

  -- What is removed where an upload fails to start, or fails.
  abbrev pub undo_upload : FilePath → Option FilePath → UploadKind → State fs → State fs
  undo_upload destination staging kind st =
      discard_if (is_unique kind) destination (discard_some staging st)

  abbrev pub launch_upload :
      Answers fs → FilePath → Option FilePath → UploadKind → Text → State fs → State fs
  launch_upload answers destination staging kind filename st =
      let s = st.session in
      let job =
        upload destination staging s.transfer_mode (is_passive s.data_channel_mode)
          s.pending_peer_addr kind filename in
      launch answers job (some filename) (undo_upload destination staging kind)
        (join_completed_transfer st)

  -- The staging file of an APPE: `none` if it could not be made.
  abbrev pub staged : fs.W × Option FilePath → Answers fs → FilePath → Text → State fs → State fs
  staged (files, none) answers destination filename st =
      session_reply action_not_taken (codes "Could not create append staging file.")
        (clear_data_state (record st { files = files }))
  staged (files, some path) answers destination filename st =
      launch_upload answers destination (some path) append filename (record st { files = files })

  abbrev pub upload_by : UploadKind → Answers fs → FilePath → Text → State fs → State fs
  upload_by append answers destination filename st =
      staged (create_sibling_temporary_path fs destination st.files) answers destination filename st
  upload_by store answers destination filename st =
      launch_upload answers destination none store filename st
  upload_by unique answers destination filename st =
      launch_upload answers destination none unique filename st

  abbrev pub upload_over :
      DataChannelMode → Answers fs → FilePath → UploadKind → Text → State fs → State fs
  upload_over no_channel answers destination kind filename st =
      discard_if (is_unique kind) destination
        (session_reply cant_open_data_connection (codes "Use PORT or PASV before upload.") st)
  upload_over passive answers destination kind filename st =
      upload_by kind answers destination filename st
  upload_over active answers destination kind filename st =
      upload_by kind answers destination filename st

  -- `startUploadTransfer`
  unfoldable pub start_upload_transfer :
      Answers fs → FilePath → UploadKind → Text → State fs → State fs
  start_upload_transfer answers destination kind filename st =
      upload_over st.session.data_channel_mode answers destination kind filename st

  -- `finishTransfer`, the locked section at the end of a worker.
  unfoldable pub finish_transfer : Bool → Text → State fs → State fs
  finish_transfer success message st =
      let st' =
        if st.session.abort_requested
        then st
        else if success
        then session_reply transfer_complete message st
        else session_reply transfer_aborted (codes "Transfer failed.") st in
      record st' { session = record st'.session { transfer_active = false } }

  -- A worker's end: its last work on the files, its locked section, and the name of its upload.
  unfoldable pub worker_ends : (fs.W → fs.W) → Bool → Text → State fs → State fs
  unfolding finish_transfer
  worker_ends work success message st =
      let ended = finish_transfer success message (record st { files = work st.files }) in
      record ended { session = without_name st.session.transfer_worker ended.session }
