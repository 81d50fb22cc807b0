-- ===== src/Tests/Control.antt =====
-- Runs of the control channel.
use socket_programming.Base.{some, ◌≤◌, ◌<◌, arith, ◌≡◌, refl, true, inr, List, [], ◌∷◌}
use mathlib.Core.Path.{subst, sym}
use socket_programming.Control.Invariant.{Channel}
use socket_programming.Text.{Text, codes}
use socket_programming.FileSystem.{FilePath}
use socket_programming.FileSystem.Resolver.{Inside}
use socket_programming.Control.State.{State}
use socket_programming.FileSystem.Quiet.{Quiet}
use mathlib.Core.Option.{some-ne-none}
use socket_programming.Control.Dispatch.{execute_command, run_command}
use socket_programming.Control.Login.{user, pass_command}
use socket_programming.Control.FileCommands.{mkd}
use socket_programming.Control.DataCommands.{port, stor}
use socket_programming.FileSystem.Resolver.{resolve}
use socket_programming.FileSystem.Directory.{make_dir}
use socket_programming.Control.Transfers.{start_upload_transfer}
use socket_programming.Control.Runs.{start, Step, commanded, Runs, begun, stepped}
use socket_programming.Control.Runs.Kept.{
  Runs-Confined, Runs-Channel, Allowed, PendingInside, WorkerInside, BusyWith,
}
use socket_programming.Control.Replied.{replies}
use socket_programming.Control.Replied.Every.{execute_command-Answered}
use socket_programming.Control.Runs.Login.{execute_command-authenticated, LoggedIn}
use socket_programming.Control.Runs.Gates.{execute_command-Still, Still}
use socket_programming.Tests.ControlData.{
  log, home, TouchedInside, log-Untouched, log-Rooted, client, ready, command,
}

abbrev first : State log
first = start 3 client home [] [] 1

abbrev after : State log → Text → List Text → State log
after st name args = execute_command home ready (command name args) st

abbrev named : State log
named = after first (codes "USER") (codes "User1" ∷ [])

abbrev logged : State log
logged = after named (codes "PASS") (codes "password" ∷ [])

abbrev made : State log
made = after logged (codes "MKD") (codes "d" ∷ [])

abbrev ported : State log
ported = after made (codes "PORT") (codes "127,0,0,1,19,136" ∷ [])

abbrev storing : State log
storing = after ported (codes "STOR") (codes "f" ∷ [])

-- A worker that leaves the files alone.
abbrev Idle : (List FilePath → List FilePath) → Type 0
Idle work = (w : List FilePath) → work w ≡ w

Idle-Allowed : Allowed Idle TouchedInside
Idle-Allowed work same w k = subst TouchedInside (sym (same w)) k

command-Step :
    (st : State log) (name : Text) (args : List Text) → Step home Idle st (after st name args)
command-Step st name args = commanded ready (command name args) st (λ w. refl)

to_named : Runs home Idle first named
to_named = stepped first named begun (command-Step first _ _)

to_logged : Runs home Idle first logged
to_logged = stepped named logged to_named (command-Step named _ _)

to_made : Runs home Idle first made
to_made = stepped logged made to_logged (command-Step logged _ _)

to_advertised : Runs home Idle first ported
to_advertised = stepped made ported to_made (command-Step made _ _)

to_storing : Runs home Idle first storing
to_storing = stepped ported storing to_advertised (command-Step ported _ _)

Runs-Confined_example :
    (TouchedInside storing.files × Inside home storing.session.current_dir)
    × (PendingInside home storing.session.has_pending_rename storing.session.pending_rename_source
        × WorkerInside home storing.session.transfer_worker)
Runs-Confined_example =
    Runs-Confined home Idle TouchedInside log-Untouched log-Rooted Idle-Allowed 3 client [] [] 1
      storing tt to_storing

Runs-Channel_example :
    Channel ported.session.data_channel_mode ported.session.pending_data_socket
      ported.session.pending_peer_addr ported.session.control_peer_addr
    × BusyWith ported.session.transfer_active ported.session.transfer_worker
Runs-Channel_example = Runs-Channel home Idle 3 client [] [] 1 ported to_advertised

login_succeeds : logged.session.authenticated ≡ true
unfolding execute_command run_command user pass_command
login_succeeds = refl

execute_command-authenticated_example :
    LoggedIn (command (codes "PASS") (codes "password" ∷ [])) named logged.session.username
execute_command-authenticated_example =
    execute_command-authenticated home Idle 3 client [] [] 1 named to_named ready
      (command (codes "PASS") (codes "password" ∷ [])) login_succeeds

storing_active : storing.session.transfer_active ≡ true
unfolding execute_command run_command user pass_command mkd make_dir port stor resolve
    start_upload_transfer
storing_active = refl

execute_command-Still_example : Still home storing (after storing (codes "RMD") (codes "d" ∷ []))
execute_command-Still_example =
    execute_command-Still home ready (command (codes "RMD") (codes "d" ∷ [])) storing storing_active
      refl

log-Quiet : Quiet log
log-Quiet = record {
  exists_ok = λ w p. refl;
  directory_ok = λ w p. refl;
  relative_ok = λ w p base e. absurd (some-ne-none [] e);
  entries_ok = λ w p x e. absurd (some-ne-none x (sym e));
}

logged_socket : logged.session.socket ≡ some 3
unfolding execute_command run_command user pass_command
logged_socket = refl

logged_replies : 2 ≤ replies logged.events
unfolding execute_command run_command user pass_command
logged_replies = omega arith

-- MKD, which asks whether the directory exists.
execute_command-Answered_example : 2 < replies (after logged (codes "MKD") (codes "d" ∷ [])).events
execute_command-Answered_example =
    execute_command-Answered home 3 2 ready (command (codes "MKD") (codes "d" ∷ [])) logged
      logged_socket logged_replies (inr log-Quiet)
