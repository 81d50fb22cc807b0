-- ===== src/Control/Runs/Gates.antt =====
-- What a client cannot do before it has logged in, or while a transfer runs.
use socket_programming.Base.{
  ℕ, ◌≡◌, refl, Bool, true, false, not, ◌&&◌, List, Option, none, some, if◌then◌else◌, arith,
}
use socket_programming.Text.{Text, codes, text_eq}
use socket_programming.FileSystem.{FilePath, FileSystem}
use socket_programming.Control.Parser.{ParsedCommand}
use socket_programming.Control.State.{State, Answers, session_reply, reply_if_open}
use socket_programming.Control.Dispatch.{
  Command, user_, pass_, quit_, noop_, help_, is_open_command, execute_command,
}
use socket_programming.Control.Invariant.FileCommands.{if_rule}

-- The files, the places and the data channel of a session are as before.
abbrev pub Frame : {fs : FileSystem} → State fs → State fs → Type 0
Frame st st' =
    ((st'.files ≡ st.files) × (st'.next_id ≡ st.next_id))
    × (((st'.session.current_dir ≡ st.session.current_dir)
          × (st'.session.pending_rename_source ≡ st.session.pending_rename_source))
        × ((st'.session.data_channel_mode ≡ st.session.data_channel_mode)
            × ((st'.session.pending_data_socket ≡ st.session.pending_data_socket)
                × (st'.session.transfer_active ≡ st.session.transfer_active))))

abbrev unchanged_Frame : {fs : FileSystem} (st : State fs) → Frame st st
unchanged_Frame st = ((refl, refl), ((refl, refl), (refl, (refl, refl))))

-- One of the commands that need no login.
data IsOpen : Command → Type 0 where
  is_user : IsOpen user_
  is_pass : IsOpen pass_
  is_help : IsOpen help_
  is_noop : IsOpen noop_
  is_quit : IsOpen quit_

-- A test that holds.
then_rule :
    {B : Type 0} (Q : B → Type 0) (b : Bool) (x y : B) → b ≡ true → Q x → Q (if b then x else y)
then_rule Q true x y e h = h
then_rule Q false x y e h = cc e

module _ {fs : FileSystem} (root : FilePath) where
  abbrev Framed : State fs → (List Text → State fs → State fs) → Type 0
  Framed st command = (args : List Text) → Frame st (command args st)

  -- The session, the files, the table of clients and the next number are as before.
  abbrev pub Still : State fs → State fs → Type 0
  Still st st' =
      (st'.session ≡ st.session)
      × ((st'.files ≡ st.files) × ((st'.registry ≡ st.registry) × (st'.next_id ≡ st.next_id)))

  replied-Still :
      (code : ℕ) (message : Text) (st : State fs) → Still st (session_reply code message st)
  replied-Still code message st = over st.session.socket
    where
      over : (o : Option ℕ) → Still st (reply_if_open o code message st)
      over none = (refl, (refl, (refl, refl)))
      over (some socket) = (refl, (refl, (refl, refl)))

  -- While a transfer is active, a command other than ABOR leaves alone the session, the files, the table
  -- of clients and the next number of a unique file.
  pub execute_command-Still :
      (answers : Answers fs) (cmd : ParsedCommand) (st : State fs)
      → st.session.transfer_active ≡ true
      → text_eq cmd.type (codes "ABOR") ≡ false
      → Still st (execute_command root answers cmd st)
  unfolding execute_command
  execute_command-Still answers cmd st active_ other =
      if_rule (Still st) (not st.session.authenticated && not (is_open_command cmd.type)) _ _
        (refl, (refl, (refl, refl)))
        (then_rule (Still st) (st.session.transfer_active && not (text_eq cmd.type (codes "ABOR")))
          _ _ (ground (arith, active_, other)) (replied-Still _ _ st))
