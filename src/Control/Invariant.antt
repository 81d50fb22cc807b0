-- ===== src/Control/Invariant.antt =====
-- What the commands of a session keep: of the session itself, and of the server's files.
pub mod Starts
pub mod Ends
pub mod FileCommands
pub mod DataCommands
pub mod Commands
use socket_programming.Base.{
  ℕ, ◌≡◌, refl, sym, subst, Bool, true, false, not, List, [], ◌∷◌, ◌++◌, Option, none, some,
  if◌then◌else◌, Bool-cases, inl, inr,
}
use mathlib.Core.Option.{some-injective, some-ne-none}
use socket_programming.Text.{Text}
use socket_programming.Endpoint.{Endpoint}
use socket_programming.FileSystem.{FilePath, FileSystem}
use socket_programming.FileSystem.Resolver.{Inside}
use socket_programming.Control.ClientSession.{
  ClientSession, Job, download, upload, DataChannelMode, no_channel, passive, active, UploadKind,
  no_endpoint,
}
use socket_programming.Control.State.{
  State, emit, close_socket, session_reply, reply_if_open, clear_data_state,
  join_completed_transfer,
}

-- The worker's files lie below the root.
abbrev pub JobInside : FilePath → Job → Type 0
JobInside root (download source mode passive_) = Inside root source
JobInside root (upload destination staging mode passive_ peer kind filename) =
    Inside root destination

-- What belongs to each mode of the data channel: nothing, the socket of PASV, or the address of PORT,
-- which is the control connection's.
abbrev pub Channel : DataChannelMode → Option ℕ → Endpoint → Endpoint → Type 0
Channel no_channel pending peer control = pending ≡ none
Channel passive pending peer control = (socket : ℕ) × (pending ≡ some socket)
Channel active pending peer control =
    (pending ≡ none) × ((peer.s_addr ≡ control.s_addr) × ¬ (peer.sin_port ≡ 0))

-- The session's two paths.
pub record Places (root current_dir : FilePath) (pending : Bool) (pending_source : FilePath)
    : Type 0 where
  pub current : Inside root current_dir
  pub source : pending ≡ true → Inside root pending_source

-- An active transfer has a worker, and a worker's files lie below the root.
pub record Working (root : FilePath) (is_active : Bool) (worker : Option Job) : Type 0 where
  pub busy : is_active ≡ true → (j : Job) × (worker ≡ some j)
  pub work : (j : Job) → worker ≡ some j → JobInside root j

-- A session and its files, where `A` holds of whoever is logged in and `P` of the files.
abbrev pub Safe :
    (root : FilePath) (A : Text → Type 0) {W : Type 0} (P : W → Type 0) → ClientSession → W → Type 0
Safe root A P s w =
    Places root s.current_dir s.has_pending_rename s.pending_rename_source
    × ((s.authenticated ≡ true → A s.username)
        × (Channel s.data_channel_mode s.pending_data_socket s.pending_peer_addr s.control_peer_addr
            × (Working root s.transfer_active s.transfer_worker × P w)))

abbrev pub IsSafe :
    {fs : FileSystem} (root : FilePath) (A : Text → Type 0) (P : fs.W → Type 0) → State fs → Type 0
IsSafe root A P st = Safe root A P st.session st.files

pub idle_Working : (root : FilePath) → Working root false none
idle_Working root = record {
  busy = λ e. cc e;
  work = λ j found. absurd (some-ne-none j (sym found));
}

-- A worker that was started.
pub started_Working :
    {root : FilePath} (job : Job) → JobInside root job → Working root true (some job)
started_Working {root} job i = record {
  busy = λ e. (job, refl);
  work = λ j found. subst (JobInside root) (some-injective job j found) i;
}

-- A transfer that has ended.
pub ended_Working :
    {root : FilePath} {is_active : Bool} {worker : Option Job}
    → Working root is_active worker
    → Working root false worker
ended_Working h = record { busy = λ e. cc e; work = h.work }

module _ {fs : FileSystem} (root : FilePath) (A : Text → Type 0) (P : fs.W → Type 0) where
  pub session_reply-IsSafe :
      (code : ℕ) (message : Text) (st : State fs)
      → IsSafe root A P st
      → IsSafe root A P (session_reply code message st)
  session_reply-IsSafe code message st h =
      elim st.session.socket as (λ o. IsSafe root A P (reply_if_open o code message st)) [
        | none ↦ h
        | some socket ↦ h
      ]

  -- A closed data channel, whatever was closed.
  closed_channel :
      (o : Option ℕ) (st : State fs)
      → IsSafe root A P st
      → IsSafe root A P (record (close_socket o st) {
        session = record st.session {
          pending_data_socket = none;
          pending_peer_addr = no_endpoint;
          data_channel_mode = no_channel;
        };
      })
  closed_channel none st (p, (l, (c, (w, k)))) = (p, (l, (refl, (w, k))))
  closed_channel (some socket) st (p, (l, (c, (w, k)))) = (p, (l, (refl, (w, k))))

  pub clear_data_state-IsSafe :
      (st : State fs) → IsSafe root A P st → IsSafe root A P (clear_data_state st)
  clear_data_state-IsSafe st h = closed_channel st.session.pending_data_socket st h

  -- `joinCompletedTransfer` on a session that has, or has not, an active transfer.
  joined :
      (is_active : Bool) (st : State fs)
      → IsSafe root A P (record st { session = record st.session { transfer_active = is_active } })
      → IsSafe root A P (
          join_completed_transfer
            (record st { session = record st.session { transfer_active = is_active } }))
  joined true st h = h
  joined false st (p, (l, (c, (w, k)))) = (p, (l, (c, (idle_Working root, k))))

  pub join_completed_transfer-IsSafe :
      (st : State fs) → IsSafe root A P st → IsSafe root A P (join_completed_transfer st)
  join_completed_transfer-IsSafe st h = joined st.session.transfer_active st h
