-- ===== src/Control/State.antt =====
-- What a command works on: its session, the file system, the table of clients, and what goes out. The
-- helpers of server/src/control/CommandDispatcher.cpp that all commands share.
use socket_programming.Base.{
  ℕ, Bool, true, false, not, List, [], ◌∷◌, ◌++◌, Option, none, some, if◌then◌else◌,
}
use socket_programming.Text.{Text}
use socket_programming.Double.{ℤ}
use socket_programming.FileSystem.{FileSystem}
use socket_programming.Control.ClientSession.{ClientSession, Job, no_channel, no_endpoint}
use socket_programming.Control.Registry.{Registry}

pub data Event : Type 0 where
  replied : ℕ → Text → Event  -- `replyWithCode`
  replied_lines : ℕ → Text → Event  -- `multilineReplyWithCode`
  closed : ℕ → Event  -- `closesocket` of a data socket
  shut_down : Event  -- the control socket
  threw : Event  -- an exception that nothing catches: the process ends
  started : Job → Event

abbrev pub has_thrown : List Event → Bool
has_thrown [] = false
has_thrown (threw ∷ es) = true
has_thrown (replied code message ∷ es) = has_thrown es
has_thrown (replied_lines code message ∷ es) = has_thrown es
has_thrown (closed socket ∷ es) = has_thrown es
has_thrown (shut_down ∷ es) = has_thrown es
has_thrown (started job ∷ es) = has_thrown es

pub record State (fs : FileSystem) : Type 0 where
  pub session : ClientSession
  pub files : fs.W
  pub registry : Registry
  pub next_id : ℕ  -- of `reserveUniqueUpload`
  pub events : List Event

-- What the system answers in the course of one command.
pub record Answers (fs : FileSystem) : Type 0 where
  pub opened_port : Option (ℕ × ℕ)  -- `openPassiveDataPort`: the socket and its port
  pub local_ip : ℕ  -- of the control socket, in host order
  pub scanned : List ℤ × ℕ  -- the fields that `sscanf_s` reads in a PORT argument, and their length
  pub transport_valid : Bool
  pub thread_started : Bool  -- false: `std::system_error`
  pub worker_files : fs.W → fs.W  -- what an active worker still does to the files before it ends

module _ {fs : FileSystem} where
  abbrev pub emit : Event → State fs → State fs
  emit e st = record st { events = st.events ++ e ∷ [] }

  -- `Session::replyWithCode` and `multilineReplyWithCode`
  abbrev pub reply : ℕ → Text → State fs → State fs
  reply code message st = emit (replied code message) st

  abbrev pub reply_lines : ℕ → Text → State fs → State fs
  reply_lines code message st = emit (replied_lines code message) st

  -- `sessionReply`
  abbrev pub reply_if_open : Option ℕ → ℕ → Text → State fs → State fs
  reply_if_open none code message st = st
  reply_if_open (some socket) code message st = reply code message st

  abbrev pub session_reply : ℕ → Text → State fs → State fs
  session_reply code message st = reply_if_open st.session.socket code message st

  abbrev pub close_socket : Option ℕ → State fs → State fs
  close_socket none st = st
  close_socket (some socket) st = emit (closed socket) st

  -- `clearDataState`
  abbrev pub clear_data_state : State fs → State fs
  clear_data_state st =
      let st' = close_socket st.session.pending_data_socket st in
      record st' {
        session = record st.session {
          pending_data_socket = none;
          pending_peer_addr = no_endpoint;
          data_channel_mode = no_channel;
        };
      }

  -- `joinCompletedTransfer`: the worker has ended, so the join does not wait.
  abbrev pub join_completed_transfer : State fs → State fs
  join_completed_transfer st =
      if not st.session.transfer_active
      then record st { session = record st.session { transfer_worker = none } }
      else st
