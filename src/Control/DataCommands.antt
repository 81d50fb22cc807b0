-- ===== src/Control/DataCommands.antt =====
-- The commands of the data channel: `commandMap` of server/src/control/CommandDispatcher.cpp, with
-- `parsePortCommand` and `formatPasvReply` of server/src/datachannel.
use socket_programming.Base.{
  ℕ, zero, suc, ◌+◌, ◌*◌, ◌/◌, ◌%◌, ◌^◌, Bool, true, false, not, ◌&&◌, ◌||◌, List, [], ◌∷◌, ◌++◌,
  Option, none, some, if◌then◌else◌, length, leb, ◌==◌,
}
use socket_programming.Text.{Text, codes}
use socket_programming.Double.{ℤ, pos, negsuc}
use socket_programming.Endpoint.{Endpoint}
use socket_programming.ReplyCode.{
  syntax_error, action_not_taken, cant_open_data_connection, enter_pasv_mode, command_okay,
  filename_not_allowed, transfer_complete, transfer_aborted,
}
use socket_programming.FileSystem.{FilePath, FileSystem}
use socket_programming.FileSystem.Resolver.{resolve}
use socket_programming.FileSystem.Directory.{when_some}
use socket_programming.Control.ClientSession.{ClientSession, passive, active, store, unique, append}
use socket_programming.Control.State.{
  State, Answers, reply, session_reply, clear_data_state, join_completed_transfer,
}
use socket_programming.Control.Transfers.{
  start_download_transfer, start_upload_transfer, worker_ends,
}

-- `inRange`
abbrev pub in_byte_range : ℤ → Bool
in_byte_range (pos n) = leb n 255
in_byte_range (negsuc n) = false

abbrev pub as_byte : ℤ → ℕ
as_byte (pos n) = n
as_byte (negsuc n) = 0

abbrev pub htons : ℕ → ℕ
htons x = x % 256 * 256 + x / 256

-- The address that `inet_pton` makes of four numbers below 256, as a little-endian word.
abbrev pub ipv4 : ℕ → ℕ → ℕ → ℕ → ℕ
ipv4 h1 h2 h3 h4 = h1 + h2 * 256 + h3 * 65536 + h4 * 16777216

abbrev pub peer_of : ℤ → ℤ → ℤ → ℤ → ℤ → ℤ → Option Endpoint
peer_of h1 h2 h3 h4 p1 p2 =
    if not (in_byte_range h1)
      || not (in_byte_range h2)
      || not (in_byte_range h3)
      || not (in_byte_range h4)
      || not (in_byte_range p1)
      || not (in_byte_range p2)
    then none
    else if as_byte p1 == 0 && as_byte p2 == 0
    then none
    else some (record {
      sin_family = 2;
      sin_port = htons ((as_byte p1 * 256 + as_byte p2) % 65536);
      s_addr = ipv4 (as_byte h1) (as_byte h2) (as_byte h3) (as_byte h4);
    })

-- The fields, if there are six.
abbrev pub six_fields : List ℤ → Option Endpoint
six_fields (h1 ∷ h2 ∷ h3 ∷ h4 ∷ p1 ∷ p2 ∷ []) = peer_of h1 h2 h3 h4 p1 p2
six_fields _ = none

-- `parsePortCommand`, given the numbers that `sscanf_s` reads in the text, and how much of it.
unfoldable pub parse_port_command : List ℤ × ℕ → Text → Option Endpoint
parse_port_command (fields, consumed) arg =
    if consumed == length arg then six_fields fields else none

-- `portMatchesControlPeer`
abbrev pub port_matches_control_peer : ClientSession → Endpoint → Bool
port_matches_control_peer s advertised =
    advertised.s_addr == s.control_peer_addr.s_addr && not (advertised.sin_port == 0)

-- Fill with '0' up to four places.
abbrev pub padded : Text → Text
padded [] = codes "0000"
padded (a ∷ []) = 48 ∷ 48 ∷ 48 ∷ a ∷ []
padded (a ∷ b ∷ []) = 48 ∷ 48 ∷ a ∷ b ∷ []
padded (a ∷ b ∷ c ∷ []) = 48 ∷ a ∷ b ∷ c ∷ []
padded (a ∷ b ∷ c ∷ d ∷ rest) = a ∷ b ∷ c ∷ d ∷ rest

abbrev pub comma : Text → Text → Text
comma a b = a ++ 44 ∷ b

module _ (fs : FileSystem) where
  -- `formatPasvReply`
  unfoldable pub format_pasv_reply : ℕ → ℕ → Text
  format_pasv_reply ip port = comma (fs.to_string (ip / 2 ^ 24 % 256)) (
      comma (fs.to_string (ip / 2 ^ 16 % 256)) (
        comma (fs.to_string (ip / 2 ^ 8 % 256)) (
          comma (fs.to_string (ip % 256))
            (comma (fs.to_string (port / 256 % 256)) (fs.to_string (port % 256))))))

  abbrev pub unique_name : ℕ → Text
  unique_name id = codes "upload_" ++ padded (fs.to_string id) ++ codes ".bin"

  -- One attempt to create a file: created, there already, or an error.
  abbrev pub attempted :
      fs.W × Bool × Bool
      → FilePath
      → Text
      → ℕ
      → (ℕ → fs.W → ℕ × fs.W × Option (FilePath × Text))
      → ℕ × fs.W × Option (FilePath × Text)
  attempted (files, true, there) candidate name id again = (id, files, some (candidate, name))
  attempted (files, false, true) candidate name id again = again id files
  attempted (files, false, false) candidate name id again = (id, files, none)

module _ (fs : FileSystem) (root : FilePath) where
  -- `reserveUniqueUpload`, with the attempts that are left and the next number.
  unfoldable pub reserve_unique_upload :
      ℕ → FilePath → ℕ → fs.W → ℕ × fs.W × Option (FilePath × Text)
  reserve_unique_upload zero current_dir id files = (id, files, none)
  reserve_unique_upload (suc left) current_dir id files =
      let next = (id + 1) % 2 ^ 64 in
      when_some (resolve fs root files current_dir (unique_name fs id)) (next, files, none)
        λ candidate.
          attempted fs (fs.create_new candidate files) candidate (unique_name fs id) next
            (reserve_unique_upload left current_dir)

module _ {fs : FileSystem} (root : FilePath) where
  abbrev pub opened : Option (ℕ × ℕ) → Answers fs → State fs → State fs
  opened none answers st = reply cant_open_data_connection (codes "Could not open data port.") st
  opened (some (socket, port)) answers st =
      reply enter_pasv_mode
        (codes "Entering Passive Mode ("
          ++ format_pasv_reply fs answers.local_ip port
          ++ codes ").")
        (record st {
          session = record st.session {
            pending_data_socket = some socket;
            data_channel_mode = passive;
          };
        })

  unfoldable pub pasv : Answers fs → List Text → State fs → State fs
  unfolding format_pasv_reply
  pasv answers args st = opened answers.opened_port answers (clear_data_state st)

  abbrev pub advertised : Option Endpoint → State fs → State fs
  advertised none st = reply syntax_error (codes "Bad PORT argument.") st
  advertised (some peer) st =
      if not (port_matches_control_peer st.session peer)
      then reply syntax_error (codes "PORT address must match the control connection.") st
      else reply command_okay (codes "PORT command successful.") (record st {
        session = record st.session { pending_peer_addr = peer; data_channel_mode = active };
      })

  unfoldable pub port : Answers fs → List Text → State fs → State fs
  unfolding parse_port_command
  port answers [] st = advertised none (clear_data_state st)
  port answers (arg ∷ []) st =
      advertised (parse_port_command answers.scanned arg) (clear_data_state st)
  port answers (arg ∷ more ∷ args) st = advertised none (clear_data_state st)

  unfoldable pub retr : Answers fs → List Text → State fs → State fs
  retr answers [] st = reply syntax_error (codes "Syntax: RETR <filename>") st
  retr answers (name ∷ []) st =
      when_some (resolve fs root st.files st.session.current_dir name)
        (reply action_not_taken (codes "File not found.") (clear_data_state st))
        λ resolved.
          let (is_file, error) = fs.is_regular_file st.files resolved in
          if not is_file || error
          then reply action_not_taken (codes "File not found.") (clear_data_state st)
          else start_download_transfer answers resolved st
  retr answers (name ∷ more ∷ args) st = reply syntax_error (codes "Syntax: RETR <filename>") st

  unfoldable pub stor : Answers fs → List Text → State fs → State fs
  stor answers [] st = reply syntax_error (codes "Syntax: STOR <filename>") st
  stor answers (name ∷ []) st =
      when_some (resolve fs root st.files st.session.current_dir name)
        (reply action_not_taken (codes "Path outside server root.") (clear_data_state st))
        λ resolved.
          if (fs.is_directory st.files resolved).0
          then reply filename_not_allowed (codes "Destination is a directory.")
              (clear_data_state st)
          else start_upload_transfer answers resolved store [] st
  stor answers (name ∷ more ∷ args) st = reply syntax_error (codes "Syntax: STOR <filename>") st

  abbrev pub upload_reserved :
      ℕ × fs.W × Option (FilePath × Text) → Answers fs → State fs → State fs
  upload_reserved (id, files, none) answers st =
      reply filename_not_allowed (codes "Could not reserve a unique filename.")
        (clear_data_state (record st { next_id = id; files = files }))
  upload_reserved (id, files, some (resolved, filename)) answers st =
      start_upload_transfer answers resolved unique filename
        (record st { next_id = id; files = files })

  unfoldable pub stou : Answers fs → List Text → State fs → State fs
  stou answers [] st =
      upload_reserved
        (reserve_unique_upload fs root 10000 st.session.current_dir st.next_id st.files) answers st
  stou answers (arg ∷ args) st = reply syntax_error (codes "Syntax: STOU") st

  unfoldable pub appe : Answers fs → List Text → State fs → State fs
  appe answers [] st = reply syntax_error (codes "Syntax: APPE <filename>") st
  appe answers (name ∷ []) st =
      when_some (resolve fs root st.files st.session.current_dir name)
        (reply action_not_taken (codes "Path outside server root.") (clear_data_state st))
        λ resolved.
          if (fs.exists st.files resolved).0 && not (fs.is_regular_file st.files resolved).0
          then reply filename_not_allowed (codes "Destination is not a regular file.")
              (clear_data_state st)
          else start_upload_transfer answers resolved append [] st
  appe answers (name ∷ more ∷ args) st = reply syntax_error (codes "Syntax: APPE <filename>") st

  -- ABOR: with a transfer active, the join waits for its worker to end.
  unfoldable pub abor : Answers fs → List Text → State fs → State fs
  unfolding worker_ends
  abor answers [] st =
      if not st.session.transfer_active
      then session_reply transfer_complete (codes "No transfer in progress.")
          (clear_data_state (join_completed_transfer st))
      else let waited =
          worker_ends answers.worker_files false []
            (record st { session = record st.session { abort_requested = true } }) in
        session_reply transfer_aborted (codes "Transfer aborted.") (
          clear_data_state (record waited {
            session = record waited.session { transfer_worker = none; transfer_active = false };
          }))
  abor answers (arg ∷ args) st = reply syntax_error (codes "Syntax: ABOR") st
