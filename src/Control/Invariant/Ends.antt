-- ===== src/Control/Invariant/Ends.antt =====
-- The end of a transfer keeps a session safe.
use socket_programming.Base.{ℕ, Bool, true, false, Option, none, some}
use socket_programming.Text.{Text}
use socket_programming.FileSystem.{FilePath, FileSystem}
use socket_programming.Control.ClientSession.{Job, download, upload}
use socket_programming.Control.State.{State}
use socket_programming.Control.Transfers.{without_name, finish_transfer, worker_ends}
use socket_programming.Control.Invariant.{ended_Working, IsSafe}

module _ {fs : FileSystem} (root : FilePath) (A : Text → Type 0) (P : fs.W → Type 0) where
  open fs use {W}

  abbrev Good : State fs → Type 0
  Good st = IsSafe root A P st

  -- What `finishTransfer` replies to, with the flag and the result as they are.
  finished :
      (aborted success : Bool) (message : Text) (st : State fs)
      → Good st
      → Good (
          finish_transfer success message
            (record st { session = record st.session { abort_requested = aborted } }))
  unfolding finish_transfer
  finished true success message st (p, (l, (c, (w, k)))) = (p, (l, (c, (ended_Working w, k))))
  finished false success message st h = over success st.session.socket h
    where
      over :
          (success : Bool) (o : Option ℕ)
          → Good st
          → Good (
              finish_transfer success message
                (record st { session = record st.session { abort_requested = false; socket = o } }))
      over true none (p, (l, (c, (w, k)))) = (p, (l, (c, (ended_Working w, k))))
      over true (some socket) (p, (l, (c, (w, k)))) = (p, (l, (c, (ended_Working w, k))))
      over false none (p, (l, (c, (w, k)))) = (p, (l, (c, (ended_Working w, k))))
      over false (some socket) (p, (l, (c, (w, k)))) = (p, (l, (c, (ended_Working w, k))))

  unnamed :
      (o : Option Job) (st : State fs)
      → Good st
      → Good (record st { session = without_name o st.session })
  unnamed none st h = h
  unnamed (some (download source mode passive_)) st h = h
  unnamed (some (upload destination staging mode passive_ peer kind filename)) st h = h

  pub worker_ends-IsSafe :
      (work : W → W) (success : Bool) (message : Text)
      → ((w : W) → P w → P (work w))
      → (st : State fs) → Good st
      → Good (worker_ends work success message st)
  unfolding worker_ends
  worker_ends-IsSafe work success message keep st (p, (l, (c, (w, k)))) =
      unnamed st.session.transfer_worker
        (finish_transfer success message (record st { files = work st.files }))
        (finished st.session.abort_requested success message (record st { files = work st.files })
          (p, (l, (c, (w, keep st.files k)))))
