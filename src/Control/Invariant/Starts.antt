-- ===== src/Control/Invariant/Starts.antt =====
-- The start of a transfer keeps a session safe.
use socket_programming.Base.{
  ℕ, ◌≡◌, refl, sym, Bool, true, false, Option, none, some, if◌then◌else◌,
}
use mathlib.Core.Option.{some-ne-none}
use socket_programming.Text.{Text, codes}
use socket_programming.ReplyCode.{file_status_okay, cant_open_data_connection}
use socket_programming.FileSystem.{FilePath, FileSystem, create_sibling_temporary_path}
use socket_programming.FileSystem.Resolver.{Inside}
use socket_programming.FileSystem.Guarded.{Untouched, Guarded}
use socket_programming.Control.ClientSession.{
  Job, download, upload, DataChannelMode, no_channel, passive, active, UploadKind, store, unique,
  append,
}
use socket_programming.Control.State.{
  State, Answers, started, emit, reply_if_open, session_reply, join_completed_transfer,
}
use socket_programming.Control.Transfers.{
  channel_taken, nothing_to_undo, clear_name, discard, discard_some, discard_if, launch,
  download_over, start_download_transfer, undo_upload, launch_upload, staged, upload_by,
  upload_over, start_upload_transfer, is_unique, is_passive,
}
use socket_programming.Control.Invariant.{
  JobInside, started_Working, ended_Working, IsSafe, session_reply-IsSafe, clear_data_state-IsSafe,
  join_completed_transfer-IsSafe,
}

module _ {fs : FileSystem} (root : FilePath) (A : Text → Type 0) (Low : FilePath → Type 0)
    (P : fs.W → Type 0) (u : Untouched fs root Low P) (g : Guarded fs root Low P) where
  open fs use {W}

  abbrev Good : State fs → Type 0
  Good st = IsSafe root A P st

  replied :
      (code : ℕ) (message : Text) (st : State fs) → Good st → Good (session_reply code message st)
  replied = session_reply-IsSafe root A P

  -- A path whose removal is not noticed.
  abbrev Removable : FilePath → Type 0
  Removable p = (w : W) → P w → P (fs.remove p w).0

  abbrev RemovableSome : Option FilePath → Type 0
  RemovableSome o = (p : FilePath) → o ≡ some p → Removable p

  below : (p : FilePath) → Low p → Removable p
  below p i w k = u.remove p w i k

  discard-Good : (p : FilePath) → Removable p → (st : State fs) → Good st → Good (discard p st)
  discard-Good p r st (pl, (l, (c, (w, k)))) = (pl, (l, (c, (w, r st.files k))))

  undo_upload-Good :
      (destination : FilePath) (staging : Option FilePath) (kind : UploadKind)
      → Low destination
      → RemovableSome staging
      → (st : State fs) → Good st
      → Good (undo_upload destination staging kind st)
  undo_upload-Good destination staging kind i r st h = undone (is_unique kind) staging r
    where
      undone :
          (b : Bool) (o : Option FilePath)
          → RemovableSome o
          → Good (discard_if b destination (discard_some o st))
      undone true none r = discard-Good destination (below destination i) st h
      undone true (some p) r =
          discard-Good destination (below destination i) (discard p st)
            (discard-Good p (r p refl) st h)
      undone false none r = h
      undone false (some p) r = discard-Good p (r p refl) st h

  -- A transport that has been taken leaves the channel closed.
  taken_mode :
      (mode : DataChannelMode) (st : State fs)
      → Good (record st { session = record st.session { data_channel_mode = mode } })
      → Good
          (record st { session = channel_taken (record st.session { data_channel_mode = mode }) })
  taken_mode no_channel st (p, (l, (c, w))) = (p, (l, (c, w)))
  taken_mode passive st (p, (l, (c, w))) = (p, (l, (refl, w)))
  taken_mode active st (p, (l, (c, w))) = (p, (l, (c.0, w)))

  taken-Good : (st : State fs) → Good st → Good (record st { session = channel_taken st.session })
  taken-Good st h = taken_mode st.session.data_channel_mode st h

  -- The start of the worker, once the transfer is announced.
  announced :
      (o : Option ℕ) (thread_started : Bool) (job : Job) (filename : Option Text)
      (undo : State fs → State fs) (x : State fs)
      → ((st : State fs) → Good st → Good (undo st))
      → Good (record x { session = record x.session { transfer_worker = some job } })
      → Good (record x { session = record x.session { transfer_active = false } })
      → Good (
          let begun = reply_if_open o file_status_okay (codes "Opening data connection.") x in
          if thread_started
          then emit
              (started job)
              (record begun { session = record begun.session { transfer_worker = some job } })
          else session_reply cant_open_data_connection (codes "Could not start transfer worker.") (
              undo (record begun {
                session = clear_name filename (record begun.session { transfer_active = false });
              })))
  announced none true job filename undo x undoes runs fails = runs
  announced (some socket) true job filename undo x undoes runs fails = runs
  announced none false job none undo x undoes runs fails = replied _ _ _ (undoes _ fails)
  announced (some socket) false job none undo x undoes runs fails = replied _ _ _ (undoes _ fails)
  announced none false job (some filename) undo x undoes runs fails = replied _ _ _ (undoes _ fails)
  announced (some socket) false job (some filename) undo x undoes runs fails =
      replied _ _ _ (undoes _ fails)

  launched :
      (transport_valid : Bool) (answers : Answers fs) (job : Job) (filename : Option Text)
      (undo : State fs → State fs)
      → JobInside root job
      → ((st : State fs) → Good st → Good (undo st))
      → (st : State fs) → Good st
      → Good (launch (record answers { transport_valid = transport_valid }) job filename undo st)
  launched false answers job filename undo i undoes st h =
      replied _ _ _ (undoes _ (taken-Good st h))
  launched true answers job filename undo i undoes st h = begins filename (taken-Good st h)
    where
      begins :
          (filename : Option Text)
          → Good (record st { session = channel_taken st.session })
          → Good (launch (record answers { transport_valid = true }) job filename undo st)
      begins none (p, (l, (c, (w, k)))) =
          announced st.session.socket answers.thread_started job none undo
            (record st {
              session = record (channel_taken st.session) {
                abort_requested = false;
                transfer_active = true;
              };
            })
            undoes (p, (l, (c, (started_Working job i, k)))) (p, (l, (c, (ended_Working w, k))))
      begins (some name) (p, (l, (c, (w, k)))) =
          announced st.session.socket answers.thread_started job (some name) undo
            (record st {
              session = record (channel_taken st.session) {
                abort_requested = false;
                transfer_active = true;
                pending_unique_filename = name;
              };
            })
            undoes (p, (l, (c, (started_Working job i, k)))) (p, (l, (c, (ended_Working w, k))))

  launch-Good :
      (answers : Answers fs) (job : Job) (filename : Option Text) (undo : State fs → State fs)
      → JobInside root job
      → ((st : State fs) → Good st → Good (undo st))
      → (st : State fs) → Good st
      → Good (launch answers job filename undo st)
  launch-Good answers = launched answers.transport_valid answers

  -- A transfer that finds no channel, or that is launched over one.
  download_over-Good :
      (mode : DataChannelMode) (answers : Answers fs) (source : FilePath)
      → Inside root source
      → (st : State fs) → Good st
      → Good (download_over mode answers source st)
  download_over-Good no_channel answers source i st h = replied _ _ st h
  download_over-Good passive answers source i st h =
      launch-Good answers (download source st.session.transfer_mode true) none nothing_to_undo i
        (λ st h. h) (join_completed_transfer st) (join_completed_transfer-IsSafe root A P st h)
  download_over-Good active answers source i st h =
      launch-Good answers (download source st.session.transfer_mode false) none nothing_to_undo i
        (λ st h. h) (join_completed_transfer st) (join_completed_transfer-IsSafe root A P st h)

  pub start_download_transfer-IsSafe :
      (answers : Answers fs) (source : FilePath)
      → Inside root source
      → (st : State fs) → Good st
      → Good (start_download_transfer answers source st)
  unfolding start_download_transfer
  start_download_transfer-IsSafe answers source i st h =
      download_over-Good st.session.data_channel_mode answers source i st h

  launch_upload-Good :
      (answers : Answers fs) (destination : FilePath) (staging : Option FilePath)
      (kind : UploadKind) (filename : Text)
      → Low destination
      → RemovableSome staging
      → (st : State fs) → Good st
      → Good (launch_upload answers destination staging kind filename st)
  launch_upload-Good answers destination staging kind filename i r st h =
      launch-Good answers
        (upload destination staging st.session.transfer_mode
          (is_passive st.session.data_channel_mode) st.session.pending_peer_addr kind filename)
        (some filename) (undo_upload destination staging kind) (g.inside destination i)
        (undo_upload-Good destination staging kind i r) (join_completed_transfer st)
        (join_completed_transfer-IsSafe root A P st h)

  no_staging : RemovableSome none
  no_staging p found = absurd (some-ne-none p (sym found))

  staged-Good :
      (x : W × Option FilePath) (answers : Answers fs) (destination : FilePath) (filename : Text)
      → Low destination
      → RemovableSome x.1
      → P x.0
      → (st : State fs) → Good st
      → Good (staged x answers destination filename st)
  staged-Good (files, none) answers destination filename i r kept st (p, (l, (c, (w, k)))) =
      replied _ _ _ (clear_data_state-IsSafe root A P _ (p, (l, (c, (w, kept)))))
  staged-Good (files, some path) answers destination filename i r kept st (p, (l, (c, (w, k)))) =
      launch_upload-Good answers destination (some path) append filename i r _
        (p, (l, (c, (w, kept))))

  upload_by-Good :
      (kind : UploadKind) (answers : Answers fs) (destination : FilePath) (filename : Text)
      → Low destination
      → (st : State fs) → Good st
      → Good (upload_by kind answers destination filename st)
  upload_by-Good store answers destination filename i st h =
      launch_upload-Good answers destination none store filename i no_staging st h
  upload_by-Good unique answers destination filename i st h =
      launch_upload-Good answers destination none unique filename i no_staging st h
  upload_by-Good append answers destination filename i st h =
      staged-Good (create_sibling_temporary_path fs destination st.files) answers destination
        filename i (λ q e w k. u.unstage destination q st.files w i e k)
        (u.temporary destination st.files i h.1.1.1.1) st h

  upload_over-Good :
      (mode : DataChannelMode) (answers : Answers fs) (destination : FilePath) (kind : UploadKind)
      (filename : Text)
      → Low destination
      → (st : State fs) → Good st
      → Good (upload_over mode answers destination kind filename st)
  upload_over-Good no_channel answers destination kind filename i st h =
      undo_upload-Good destination none kind i no_staging _ (replied _ _ st h)
  upload_over-Good passive answers destination kind filename i st h =
      upload_by-Good kind answers destination filename i st h
  upload_over-Good active answers destination kind filename i st h =
      upload_by-Good kind answers destination filename i st h

  pub start_upload_transfer-IsSafe :
      (answers : Answers fs) (destination : FilePath) (kind : UploadKind) (filename : Text)
      → Low destination
      → (st : State fs) → Good st
      → Good (start_upload_transfer answers destination kind filename st)
  unfolding start_upload_transfer
  start_upload_transfer-IsSafe answers destination kind filename i st h =
      upload_over-Good st.session.data_channel_mode answers destination kind filename i st h
