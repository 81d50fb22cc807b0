-- ===== src/Control/Dispatch.antt =====
-- `executeCommand` and `shutdownSession` of server/src/control/CommandDispatcher.cpp.
use socket_programming.Base.{
  Bool, true, false, not, ◌&&◌, ◌||◌, List, [], ◌∷◌, ◌++◌, Option, none, some, if◌then◌else◌,
}
use socket_programming.Text.{Text, codes, text_eq}
use socket_programming.ReplyCode.{not_logged_in, bad_sequence, syntax_error}
use socket_programming.FileSystem.{FilePath, FileSystem}
use socket_programming.FileSystem.Directory.{when_some}
use socket_programming.Control.Parser.{ParsedCommand}
use socket_programming.Control.State.{
  State, Answers, reply, session_reply, clear_data_state, join_completed_transfer,
}
use socket_programming.Control.Transfers.{worker_ends}
use socket_programming.Control.Login.{user, pass_command, quit, noop}
use socket_programming.Control.FileCommands.{
  pwd, cwd, cdup, mkd, rmd, list_command, stat, size, mdtm, dele, rnfr, rnto, hash,
}
use socket_programming.Control.DataCommands.{pasv, port, retr, stor, stou, appe, abor}
use socket_programming.Control.InfoCommands.{type_command, mode_command, help}

pub data Command : Type 0 where
  user_ pass_ quit_ noop_ pwd_ cwd_ cdup_ mkd_ rmd_ list_ nlst_ stat_ size_ mdtm_ dele_ rnfr_
        rnto_ :
      Command
  pasv_ port_ retr_ stor_ stou_ appe_ hash_ type_ mode_ abor_ help_ : Command

-- The keys of `commandMap`.
abbrev pub command_map : List (Text × Command)
command_map =
    (codes "USER", user_)
    ∷ (codes "PASS", pass_)
    ∷ (codes "QUIT", quit_)
    ∷ (codes "NOOP", noop_)
    ∷ (codes "PWD", pwd_)
    ∷ (codes "CWD", cwd_)
    ∷ (codes "CDUP", cdup_)
    ∷ (codes "MKD", mkd_)
    ∷ (codes "RMD", rmd_)
    ∷ (codes "LIST", list_)
    ∷ (codes "NLST", nlst_)
    ∷ (codes "STAT", stat_)
    ∷ (codes "SIZE", size_)
    ∷ (codes "MDTM", mdtm_)
    ∷ (codes "DELE", dele_)
    ∷ (codes "RNFR", rnfr_)
    ∷ (codes "RNTO", rnto_)
    ∷ (codes "PASV", pasv_)
    ∷ (codes "PORT", port_)
    ∷ (codes "RETR", retr_)
    ∷ (codes "STOR", stor_)
    ∷ (codes "STOU", stou_)
    ∷ (codes "APPE", appe_)
    ∷ (codes "HASH", hash_)
    ∷ (codes "TYPE", type_)
    ∷ (codes "MODE", mode_)
    ∷ (codes "ABOR", abor_)
    ∷ (codes "HELP", help_)
    ∷ []

unfoldable pub find_command : Text → List (Text × Command) → Option Command
find_command k [] = none
find_command k ((j, c) ∷ m) = if text_eq j k then some c else find_command k m

-- The commands that a client may use before it has logged in.
abbrev pub is_open_command : Text → Bool
is_open_command type =
    text_eq type (codes "USER")
    || text_eq type (codes "PASS")
    || text_eq type (codes "HELP")
    || text_eq type (codes "NOOP")
    || text_eq type (codes "QUIT")

module _ {fs : FileSystem} (root : FilePath) where
  -- The functions of `commandMap`.
  unfoldable pub run_command : Command → Answers fs → List Text → State fs → State fs
  run_command user_ answers args st = user args st
  run_command pass_ answers args st = pass_command args st
  run_command quit_ answers args st = quit args st
  run_command noop_ answers args st = noop args st
  run_command pwd_ answers args st = pwd root args st
  run_command cwd_ answers args st = cwd root args st
  run_command cdup_ answers args st = cdup root args st
  run_command mkd_ answers args st = mkd root args st
  run_command rmd_ answers args st = rmd root args st
  run_command list_ answers args st = list_command root false (codes "Syntax: LIST [path]") args st
  run_command nlst_ answers args st = list_command root true (codes "Syntax: NLST [path]") args st
  run_command stat_ answers args st = stat root args st
  run_command size_ answers args st = size root args st
  run_command mdtm_ answers args st = mdtm root args st
  run_command dele_ answers args st = dele root args st
  run_command rnfr_ answers args st = rnfr root args st
  run_command rnto_ answers args st = rnto root args st
  run_command pasv_ answers args st = pasv root answers args st
  run_command port_ answers args st = port root answers args st
  run_command retr_ answers args st = retr root answers args st
  run_command stor_ answers args st = stor root answers args st
  run_command stou_ answers args st = stou root answers args st
  run_command appe_ answers args st = appe root answers args st
  run_command hash_ answers args st = hash root args st
  run_command type_ answers args st = type_command args st
  run_command mode_ answers args st = mode_command args st
  run_command abor_ answers args st = abor root answers args st
  run_command help_ answers args st = help args st

  unfoldable pub execute_command : Answers fs → ParsedCommand → State fs → State fs
  unfolding find_command
  execute_command answers cmd st =
      if not st.session.authenticated && not (is_open_command cmd.type)
      then reply not_logged_in (codes "Please log in using USER and PASS.") st
      else if st.session.transfer_active && not (text_eq cmd.type (codes "ABOR"))
      then session_reply bad_sequence (codes "Transfer already in progress; use ABOR first.") st
      else let joined = join_completed_transfer st in
        when_some (find_command cmd.type command_map)
          (reply syntax_error (codes "Command not found: " ++ cmd.type) joined)
          λ c. run_command c answers cmd.args joined

  -- `shutdownSession`
  unfoldable pub shutdown_session : Answers fs → State fs → State fs
  unfolding worker_ends
  shutdown_session answers st =
      let stopped = record st { session = record st.session { abort_requested = true } } in
      let waited =
        if st.session.transfer_active
        then worker_ends answers.worker_files false [] stopped
        else stopped in
      clear_data_state (record waited {
        session = record waited.session { transfer_worker = none; transfer_active = false };
      })
