-- ===== src/Control/Replied/DataCommands.antt =====
-- A command is answered on the data channel.
use socket_programming.Base.{ℕ, true, false, not, ◌&&◌, ◌||◌, List, [], ◌∷◌, Option, none, some}
use socket_programming.Text.{Text, codes}
use socket_programming.ReplyCode.{
  transfer_complete, transfer_aborted, action_not_taken, filename_not_allowed,
}
use socket_programming.Endpoint.{Endpoint}
use socket_programming.FileSystem.{FilePath, FileSystem}
use socket_programming.FileSystem.Resolver.{resolve}
use socket_programming.FileSystem.Directory.{when_some}
use socket_programming.FileSystem.Guarded.{when_some_rule}
use socket_programming.Control.ClientSession.{
  passive, active, Job, download, upload, store, unique, append,
}
use socket_programming.Control.State.{
  State, Answers, reply, clear_data_state, join_completed_transfer,
}
use socket_programming.Control.Transfers.{finish_transfer, worker_ends, without_name}
use socket_programming.Control.DataCommands.{
  port_matches_control_peer, parse_port_command, opened, advertised, reserve_unique_upload,
  upload_reserved, pasv, port, retr, stor, stou, appe, abor,
}
use socket_programming.Control.Invariant.FileCommands.{if_rule}
use socket_programming.Control.Replied.{
  Waiting, Answered, session_reply-Answered, reply-Answered, clear_data_state-Waiting,
  join_completed_transfer-Waiting,
}
use socket_programming.Control.Replied.Transfers.{
  start_download_transfer-Answered, start_upload_transfer-Answered,
}

module _ {fs : FileSystem} (root : FilePath) (b socket n : ℕ) where
  abbrev Open : State fs → Type 0
  Open st = Waiting b socket n st

  abbrev Done : State fs → Type 0
  Done st = Answered b socket n st

  -- A command that answers, whatever its arguments.
  abbrev Answering : (List Text → State fs → State fs) → Type 0
  Answering command = (args : List Text) (st : State fs) → Open st → Done (command args st)

  replied_ : (code : ℕ) (message : Text) (st : State fs) → Open st → Done (reply code message st)
  replied_ = reply-Answered b socket n

  cleared : (st : State fs) → Open st → Open (clear_data_state st)
  cleared = clear_data_state-Waiting b socket n

  -- `fs::exists` and the like stand between the path and the answer.
  on_path :
      (name : Text) (st x : State fs) (rest : FilePath → State fs)
      → Done x
      → ((p : FilePath) → Done (rest p))
      → Done (when_some (resolve fs root st.files st.session.current_dir name) x rest)
  on_path name st x rest h go =
      when_some_rule Done (resolve fs root st.files st.session.current_dir name) x rest h
        λ p e. go p

  opened-Done :
      (o : Option (ℕ × ℕ)) (answers : Answers fs) (st : State fs)
      → Open st
      → Done (opened root o answers st)
  opened-Done none answers st h = replied_ _ _ st h
  opened-Done (some (s, port)) answers st h =
      replied_ _ _
        (record st {
          session = record st.session { pending_data_socket = some s; data_channel_mode = passive };
        })
        h

  pub pasv-Done : (answers : Answers fs) → Answering (pasv root answers)
  unfolding pasv
  pasv-Done answers args st h =
      opened-Done answers.opened_port answers (clear_data_state st) (cleared st h)

  advertised-Done : (o : Option Endpoint) (st : State fs) → Open st → Done (advertised root o st)
  advertised-Done none st h = replied_ _ _ st h
  advertised-Done (some peer) st h =
      if_rule Done (not (port_matches_control_peer st.session peer)) _ _ (replied_ _ _ st h) (
        replied_ _ _
          (record st {
            session = record st.session { pending_peer_addr = peer; data_channel_mode = active };
          })
          h)

  pub port-Done : (answers : Answers fs) → Answering (port root answers)
  unfolding port
  port-Done answers [] st h = advertised-Done none (clear_data_state st) (cleared st h)
  port-Done answers (arg ∷ []) st h =
      advertised-Done (parse_port_command answers.scanned arg) (clear_data_state st) (cleared st h)
  port-Done answers (arg ∷ more ∷ args) st h =
      advertised-Done none (clear_data_state st) (cleared st h)

  pub retr-Done : (answers : Answers fs) → Answering (retr root answers)
  unfolding retr
  retr-Done answers [] st h = replied_ _ _ st h
  retr-Done answers (name ∷ []) st h =
      on_path name st _ _ (replied_ _ _ (clear_data_state st) (cleared st h)) λ p.
        if_rule Done (not (fs.is_regular_file st.files p).0 || (fs.is_regular_file st.files p).1) _
          _
          (replied_ action_not_taken (codes "File not found.") (clear_data_state st) (cleared st h))
          (start_download_transfer-Answered b socket n answers p st h)
  retr-Done answers (name ∷ more ∷ args) st h = replied_ _ _ st h

  pub stor-Done : (answers : Answers fs) → Answering (stor root answers)
  unfolding stor
  stor-Done answers [] st h = replied_ _ _ st h
  stor-Done answers (name ∷ []) st h =
      on_path name st _ _ (replied_ _ _ (clear_data_state st) (cleared st h)) λ p.
        if_rule Done ((fs.is_directory st.files p).0) _ _
          (replied_ filename_not_allowed (codes "Destination is a directory.") (clear_data_state st)
            (cleared st h))
          (start_upload_transfer-Answered b socket n answers p store [] st h)
  stor-Done answers (name ∷ more ∷ args) st h = replied_ _ _ st h

  pub appe-Done : (answers : Answers fs) → Answering (appe root answers)
  unfolding appe
  appe-Done answers [] st h = replied_ _ _ st h
  appe-Done answers (name ∷ []) st h =
      on_path name st _ _ (replied_ _ _ (clear_data_state st) (cleared st h)) λ p.
        if_rule Done ((fs.exists st.files p).0 && not (fs.is_regular_file st.files p).0) _ _
          (replied_ filename_not_allowed (codes "Destination is not a regular file.")
            (clear_data_state st) (cleared st h))
          (start_upload_transfer-Answered b socket n answers p append [] st h)
  appe-Done answers (name ∷ more ∷ args) st h = replied_ _ _ st h

  upload_reserved-Done :
      (x : ℕ × fs.W × Option (FilePath × Text)) (answers : Answers fs) (st : State fs)
      → Open st
      → Done (upload_reserved root x answers st)
  upload_reserved-Done (id, files, none) answers st h =
      replied_ _ _ (clear_data_state (record st { next_id = id; files = files }))
        (cleared (record st { next_id = id; files = files }) h)
  upload_reserved-Done (id, files, some (resolved, filename)) answers st h =
      start_upload_transfer-Answered b socket n answers resolved unique filename
        (record st { next_id = id; files = files }) h

  pub stou-Done : (answers : Answers fs) → Answering (stou root answers)
  unfolding stou
  stou-Done answers [] st h =
      upload_reserved-Done
        (reserve_unique_upload fs root 10000 st.session.current_dir st.next_id st.files) answers st
        h
  stou-Done answers (arg ∷ args) st h = replied_ _ _ st h

  -- The end of a worker, aborted: it says nothing.
  unnamed :
      (o : Option Job) (st : State fs)
      → Open st
      → Open (record st {
        session = record (without_name o st.session) {
          transfer_worker = none;
          transfer_active = false;
        };
      })
  unnamed none st h = h
  unnamed (some (download source mode passive_)) st h = h
  unnamed (some (upload destination staging mode passive_ peer kind filename)) st h = h

  pub abor-Done : (answers : Answers fs) → Answering (abor root answers)
  unfolding abor worker_ends finish_transfer
  abor-Done answers (arg ∷ args) st h = replied_ _ _ st h
  abor-Done answers [] st h =
      let stopped = record st { session = record st.session { abort_requested = true } } in
      let waited = worker_ends answers.worker_files false [] stopped in
      let resting = record waited {
        session = record waited.session { transfer_worker = none; transfer_active = false };
      } in
      if_rule Done (not st.session.transfer_active) _ _
        (session_reply-Answered b socket n transfer_complete (codes "No transfer in progress.")
          (clear_data_state (join_completed_transfer st))
          (cleared (join_completed_transfer st) (join_completed_transfer-Waiting b socket n st h)))
        (session_reply-Answered b socket n transfer_aborted (codes "Transfer aborted.")
          (clear_data_state resting)
          (cleared resting (
            unnamed st.session.transfer_worker
              (finish_transfer false [] (record stopped { files = answers.worker_files st.files }))
              h)))
