-- ===== src/Control/Runs/Login.antt =====
-- Who is logged in after a command.
use socket_programming.Base.{ℕ, ◌≡◌, refl, ◌⊎◌, inl, inr, true, [], ◌∷◌, some}
use socket_programming.Text.{Text}
use socket_programming.Endpoint.{Endpoint}
use socket_programming.FileSystem.{FilePath, FileSystem}
use socket_programming.Control.Parser.{ParsedCommand}
use socket_programming.Control.State.{State, Answers}
use socket_programming.Control.Dispatch.{command_map, find_command, pass_, execute_command}
use socket_programming.Control.Invariant.Commands.{HasPassword, execute_command-IsSafe}
use socket_programming.Control.Registry.{Registry}
use socket_programming.Control.Runs.{start, Runs}
use socket_programming.Control.Runs.Kept.{Anything, anything, unguarded, always_safe}
use socket_programming.FileSystem.Resolver.{Inside}

-- The command is a PASS whose argument is the user's password.
abbrev pub RightPass : ParsedCommand → Text → Type 0
RightPass cmd name =
    (given : Text) × ((find_command cmd.type command_map ≡ some pass_)
      × ((cmd.args ≡ given ∷ []) × HasPassword name given))

-- How a session comes to be logged in as `name` after a command: it was before, or by a PASS.
abbrev pub LoggedIn : {fs : FileSystem} → ParsedCommand → State fs → Text → Type 0
LoggedIn cmd st name =
    ((st.session.authenticated ≡ true) × (st.session.username ≡ name)) ⊎ RightPass cmd name

-- In a run from the begin of a session: if the session is logged in after a command, then either it was
-- so before it, as the same user, or the command is PASS with one argument, the password that the table
-- of users has for the session's user.
pub execute_command-authenticated :
    {fs : FileSystem} (root : FilePath) (May : (fs.W → fs.W) → Type 0) (socket : ℕ)
    (peer : Endpoint) (w : fs.W) (registry : Registry) (id : ℕ) (st : State fs)
    → Runs root May (start socket peer root w registry id) st
    → (answers : Answers fs) (cmd : ParsedCommand)
    → (execute_command root answers cmd st).session.authenticated ≡ true
    → LoggedIn cmd st (execute_command root answers cmd st).session.username
execute_command-authenticated root May socket peer w registry id st run answers cmd on =
    let (places, (login, rest)) = always_safe root May socket peer w registry id st run in
    let (places', (login', rest')) =
      execute_command-IsSafe root (LoggedIn cmd st) (Inside root) Anything (anything root May)
        (unguarded root May) answers cmd (λ w k. tt) st
        (λ is_pass given one right. inr (given, (is_pass, (one, right))))
        (places, (λ was. inl (was, refl), rest)) in
    login' on
