-- ===== src/Control/Runs.antt =====
-- The life of a session: commands of its control thread and the ends of its workers, in any order
-- (`Session::handleClient` of server/src/control/Session.cpp, with `executeCommand`).
pub mod Kept
pub mod Gates
pub mod Login
use socket_programming.Base.{
  ℕ, ◌≡◌, refl, sym, ◌∙◌, ◌⊎◌, inl, inr, Bool, true, false, List, [], ◌∷◌, Option, none, some,
}
use mathlib.Core.List.{append-nil}
use socket_programming.Text.{Text}
use socket_programming.Endpoint.{Endpoint}
use socket_programming.FileSystem.{FilePath, FileSystem}
use socket_programming.FileSystem.Resolver.{Inside}
use socket_programming.FileSystem.Guarded.{Untouched}
use socket_programming.Control.Parser.{ParsedCommand}
use socket_programming.Control.ClientSession.{Job, new_session}
use socket_programming.Control.State.{State, Answers}
use socket_programming.Control.Transfers.{worker_ends}
use socket_programming.Control.Login.{find_user, database}
use socket_programming.Control.Dispatch.{command_map, find_command, pass_, execute_command}
use socket_programming.Control.Registry.{Registry}
use socket_programming.Control.Invariant.{IsSafe, JobInside, Channel, Working, idle_Working}
use socket_programming.Control.Invariant.Ends.{worker_ends-IsSafe}
use socket_programming.Control.Invariant.Commands.{HasPassword, execute_command-IsSafe}

-- The state in which a session begins.
abbrev pub start :
    {fs : FileSystem} (socket : ℕ) (peer : Endpoint) (root : FilePath)
    → fs.W
    → Registry
    → ℕ
    → State fs
start socket peer root w registry next_id = record {
  session = new_session socket peer root;
  files = w;
  registry = registry;
  next_id = next_id;
  events = [];
}

-- What a session's threads do, where `May` says what a worker may do to the files.
pub data Step {fs : FileSystem} (root : FilePath) (May : (fs.W → fs.W) → Type 0)
    : State fs → State fs → Type 0 where
  commanded :
      (answers : Answers fs) (cmd : ParsedCommand) (st : State fs)
      → May answers.worker_files
      → Step root May st (execute_command root answers cmd st)
  finished :
      (work : fs.W → fs.W) (success : Bool) (message : Text) (st : State fs)
      → May work
      → st.session.transfer_active ≡ true
      → Step root May st (worker_ends work success message st)

pub data Runs {fs : FileSystem} (root : FilePath) (May : (fs.W → fs.W) → Type 0) (begin : State fs)
    : State fs → Type 0 where
  begun : Runs root May begin begin
  stepped :
      (st st' : State fs) → Runs root May begin st → Step root May st st' → Runs root May begin st'
