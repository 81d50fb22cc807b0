-- ===== src/Control/Replied/Transfers.antt =====
-- The start of a transfer is answered, one way or the other.
use socket_programming.Base.{
  ℕ, ◌≡◌, Bool, true, false, [], ◌∷◌, Option, none, some, if◌then◌else◌, arith,
}
use socket_programming.Text.{Text, codes}
use socket_programming.ReplyCode.{file_status_okay, cant_open_data_connection}
use socket_programming.FileSystem.{FilePath, FileSystem, create_sibling_temporary_path}
use socket_programming.Control.ClientSession.{
  Job, download, upload, DataChannelMode, no_channel, passive, active, UploadKind, store, unique,
  append,
}
use socket_programming.Control.State.{
  State, Answers, started, emit, session_reply, clear_data_state, join_completed_transfer,
}
use socket_programming.Control.Transfers.{
  channel_taken, nothing_to_undo, clear_name, discard_some, discard_if, launch, download_over,
  start_download_transfer, undo_upload, launch_upload, staged, upload_by, upload_over,
  start_upload_transfer, is_unique, is_passive,
}
use socket_programming.Control.Replied.{
  outcomes-append, Waiting, Answered, session_reply-socket, session_reply-Answered,
  clear_data_state-Waiting, join_completed_transfer-Waiting,
}

module _ {fs : FileSystem} (b socket n : ℕ) where
  abbrev Open : State fs → Type 0
  Open st = Waiting b socket n st

  abbrev Done : State fs → Type 0
  Done st = Answered b socket n st

  told :
      (code : ℕ) (message : Text) (st : State fs) → Open st → Done (session_reply code message st)
  told = session_reply-Answered b socket n

  -- A clean-up that leaves the socket and the events alone.
  abbrev Quiet : (State fs → State fs) → Type 0
  Quiet undo = (st : State fs) → (Open st → Open (undo st)) × (Done st → Done (undo st))

  undo_upload-Quiet :
      (destination : FilePath) (staging : Option FilePath) (kind : UploadKind)
      → Quiet (undo_upload destination staging kind)
  undo_upload-Quiet destination staging kind st = undone (is_unique kind) staging
    where
      undone :
          (b : Bool) (o : Option FilePath)
          → (Open st → Open (discard_if b destination (discard_some o st)))
            × (Done st → Done (discard_if b destination (discard_some o st)))
      undone true none = (λ h. h, λ h. h)
      undone true (some p) = (λ h. h, λ h. h)
      undone false none = (λ h. h, λ h. h)
      undone false (some p) = (λ h. h, λ h. h)

  -- The announcement, and then the start of the worker or its failure.
  announced :
      (thread_started : Bool) (job : Job) (filename : Option Text) (undo : State fs → State fs)
      (begun : State fs)
      → Quiet undo
      → Done begun
      → begun.session.socket ≡ some socket
      → Done (
          if thread_started
          then emit
              (started job)
              (record begun { session = record begun.session { transfer_worker = some job } })
          else session_reply cant_open_data_connection (codes "Could not start transfer worker.") (
              undo (record begun {
                session = clear_name filename (record begun.session { transfer_active = false });
              })))
  announced true job filename undo begun quiet h o =
      omega (arith, h, outcomes-append b begun.events (started job ∷ []))
  announced false job none undo begun quiet h o = told _ _ _ ((quiet _).0 (o, omega (arith, h)))
  announced false job (some name) undo begun quiet h o =
      told _ _ _ ((quiet _).0 (o, omega (arith, h)))

  launched :
      (transport_valid : Bool) (answers : Answers fs) (job : Job) (filename : Option Text)
      (undo : State fs → State fs)
      → Quiet undo
      → (st : State fs) → Open st
      → Done (launch (record answers { transport_valid = transport_valid }) job filename undo st)
  launched false answers job filename undo quiet st h =
      told _ _ _ ((quiet (record st { session = channel_taken st.session })).0 h)
  launched true answers job filename undo quiet st h = named filename
    where
      named :
          (filename : Option Text)
          → Done (launch (record answers { transport_valid = true }) job filename undo st)
      named none =
          let begin = record st {
            session = record (channel_taken st.session) {
              abort_requested = false;
              transfer_active = true;
            };
          } in
          announced answers.thread_started job none undo
            (session_reply file_status_okay (codes "Opening data connection.") begin) quiet
            (told file_status_okay (codes "Opening data connection.") begin h)
            (session_reply-socket b socket n file_status_okay (codes "Opening data connection.")
              begin h)
      named (some name) =
          let begin = record st {
            session = record (channel_taken st.session) {
              abort_requested = false;
              transfer_active = true;
              pending_unique_filename = name;
            };
          } in
          announced answers.thread_started job (some name) undo
            (session_reply file_status_okay (codes "Opening data connection.") begin) quiet
            (told file_status_okay (codes "Opening data connection.") begin h)
            (session_reply-socket b socket n file_status_okay (codes "Opening data connection.")
              begin h)

  launch-Done :
      (answers : Answers fs) (job : Job) (filename : Option Text) (undo : State fs → State fs)
      → Quiet undo
      → (st : State fs) → Open st
      → Done (launch answers job filename undo st)
  launch-Done answers = launched answers.transport_valid answers

  joined : (st : State fs) → Open st → Open (join_completed_transfer st)
  joined = join_completed_transfer-Waiting b socket n

  download_over-Done :
      (mode : DataChannelMode) (answers : Answers fs) (source : FilePath) (st : State fs)
      → Open st
      → Done (download_over mode answers source st)
  download_over-Done no_channel answers source st h = told _ _ st h
  download_over-Done passive answers source st h =
      launch-Done answers (download source st.session.transfer_mode true) none nothing_to_undo
        (λ st. (λ h. h, λ h. h)) (join_completed_transfer st) (joined st h)
  download_over-Done active answers source st h =
      launch-Done answers (download source st.session.transfer_mode false) none nothing_to_undo
        (λ st. (λ h. h, λ h. h)) (join_completed_transfer st) (joined st h)

  pub start_download_transfer-Answered :
      (answers : Answers fs) (source : FilePath) (st : State fs)
      → Open st
      → Done (start_download_transfer answers source st)
  unfolding start_download_transfer
  start_download_transfer-Answered answers source st h =
      download_over-Done st.session.data_channel_mode answers source st h

  launch_upload-Done :
      (answers : Answers fs) (destination : FilePath) (staging : Option FilePath)
      (kind : UploadKind) (filename : Text) (st : State fs)
      → Open st
      → Done (launch_upload answers destination staging kind filename st)
  launch_upload-Done answers destination staging kind filename st h =
      launch-Done answers
        (upload destination staging st.session.transfer_mode
          (is_passive st.session.data_channel_mode) st.session.pending_peer_addr kind filename)
        (some filename) (undo_upload destination staging kind)
        (undo_upload-Quiet destination staging kind) (join_completed_transfer st) (joined st h)

  staged-Done :
      (x : fs.W × Option FilePath) (answers : Answers fs) (destination : FilePath) (filename : Text)
      (st : State fs)
      → Open st
      → Done (staged x answers destination filename st)
  staged-Done (files, none) answers destination filename st h =
      told _ _ (clear_data_state (record st { files = files }))
        (clear_data_state-Waiting b socket n (record st { files = files }) h)
  staged-Done (files, some path) answers destination filename st h =
      launch_upload-Done answers destination (some path) append filename
        (record st { files = files }) h

  upload_by-Done :
      (kind : UploadKind) (answers : Answers fs) (destination : FilePath) (filename : Text)
      (st : State fs)
      → Open st
      → Done (upload_by kind answers destination filename st)
  upload_by-Done store answers destination filename st h =
      launch_upload-Done answers destination none store filename st h
  upload_by-Done unique answers destination filename st h =
      launch_upload-Done answers destination none unique filename st h
  upload_by-Done append answers destination filename st h =
      staged-Done (create_sibling_temporary_path fs destination st.files) answers destination
        filename st h

  upload_over-Done :
      (mode : DataChannelMode) (answers : Answers fs) (destination : FilePath) (kind : UploadKind)
      (filename : Text) (st : State fs)
      → Open st
      → Done (upload_over mode answers destination kind filename st)
  upload_over-Done no_channel answers destination kind filename st h =
      (undo_upload-Quiet destination none kind
          (session_reply cant_open_data_connection (codes "Use PORT or PASV before upload.") st)).1
        (told cant_open_data_connection (codes "Use PORT or PASV before upload.") st h)
  upload_over-Done passive answers destination kind filename st h =
      upload_by-Done kind answers destination filename st h
  upload_over-Done active answers destination kind filename st h =
      upload_by-Done kind answers destination filename st h

  pub start_upload_transfer-Answered :
      (answers : Answers fs) (destination : FilePath) (kind : UploadKind) (filename : Text)
      (st : State fs)
      → Open st
      → Done (start_upload_transfer answers destination kind filename st)
  unfolding start_upload_transfer
  start_upload_transfer-Answered answers destination kind filename st h =
      upload_over-Done st.session.data_channel_mode answers destination kind filename st h
