-- ===== src/Control/ClientSession.antt =====
-- server/src/control/Session.h: the state of one client's session. The two atomic flags and the
-- worker thread are fields: one step of the model is one command of the control thread, or one
-- locked section of the worker.
use socket_programming.Base.{ℕ, Bool, false, Option, none, some, []}
use socket_programming.Text.{Text}
use socket_programming.Endpoint.{Endpoint}
use socket_programming.FileSystem.{FilePath}

pub data DataChannelMode : Type 0 where
  no_channel passive active : DataChannelMode

pub data TransferMode : Type 0 where
  binary ascii : TransferMode

pub data UploadKind : Type 0 where
  store unique append : UploadKind

-- What a worker thread was started with.
pub data Job : Type 0 where
  download : FilePath → TransferMode → Bool → Job
  upload : FilePath → Option FilePath → TransferMode → Bool → Endpoint → UploadKind → Text → Job

pub record ClientSession : Type 0 where
  pub socket : Option ℕ  -- `none` is INVALID_SOCKET
  pub authenticated : Bool
  pub transfer_mode : TransferMode
  pub username : Text
  pub current_dir : FilePath
  pub data_channel_mode : DataChannelMode
  pub pending_data_socket : Option ℕ
  pub pending_peer_addr : Endpoint
  pub control_peer_addr : Endpoint
  pub pending_rename_source : FilePath
  pub has_pending_rename : Bool
  pub transfer_active : Bool
  pub abort_requested : Bool
  pub transfer_worker : Option Job  -- `joinable()`
  pub pending_unique_filename : Text

abbrev pub no_endpoint : Endpoint
no_endpoint = record { sin_family = 0; sin_port = 0; s_addr = 0 }

-- The session of `handleClient`, for an accepted socket.
abbrev pub new_session : ℕ → Endpoint → FilePath → ClientSession
new_session socket peer root = record {
  socket = some socket;
  authenticated = false;
  transfer_mode = binary;
  username = [];
  current_dir = root;
  data_channel_mode = no_channel;
  pending_data_socket = none;
  pending_peer_addr = no_endpoint;
  control_peer_addr = peer;
  pending_rename_source = [];
  has_pending_rename = false;
  transfer_active = false;
  abort_requested = false;
  transfer_worker = none;
  pending_unique_filename = [];
}
