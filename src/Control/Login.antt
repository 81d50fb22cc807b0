-- ===== src/Control/Login.antt =====
-- The commands that log a client in and out: `commandMap` of
-- server/src/control/CommandDispatcher.cpp, with server/src/common/Users.h.
use socket_programming.Base.{
  ℕ, Bool, true, false, List, [], ◌∷◌, ◌++◌, Option, none, some, if◌then◌else◌,
}
use socket_programming.Text.{Text, codes, text_eq, is_empty}
use socket_programming.ReplyCode.{
  syntax_error, auth_need_pass, not_logged_in, bad_sequence, logged_in, goodbye, action_completed,
}
use socket_programming.FileSystem.{FileSystem}
use socket_programming.Control.Registry.{Registry, set_username}
use socket_programming.Control.State.{State, Event, closed, shut_down, emit, reply}

-- `closesocket` of the control socket
abbrev pub closing : Option ℕ → List Event
closing none = []
closing (some socket) = closed socket ∷ []

-- `Users::database`
abbrev pub database : List (Text × Text)
database = (codes "User1", codes "password") ∷ (codes "User2", codes "hcmus") ∷ []

unfoldable pub find_user : Text → List (Text × Text) → Option Text
find_user name [] = none
find_user name ((k, v) ∷ m) = if text_eq k name then some v else find_user name m

abbrev pub rename_client : Option ℕ → Text → Registry → Registry
rename_client none name m = m
rename_client (some socket) name m = set_username socket name m

abbrev pub password_is : Text → Option Text → Bool
password_is given none = false
password_is given (some password) = text_eq given password

module _ {fs : FileSystem} where
  abbrev pub set_user : Text → State fs → State fs
  set_user name st = record st {
    session = record st.session { username = name };
    registry = rename_client st.session.socket name st.registry;
  }

  abbrev pub logged_out : State fs → State fs
  logged_out st = record st { session = record st.session { authenticated = false } }

  abbrev pub user_named : Text → Option Text → State fs → State fs
  user_named name none st = reply not_logged_in (codes "Not logged in, username incorrect.") st
  user_named name (some password) st =
      reply auth_need_pass (codes "Username OK, need password.") (set_user name st)

  -- USER
  unfoldable pub user : List Text → State fs → State fs
  unfolding find_user
  user [] st = reply syntax_error (codes "Syntax: USER <username>") (set_user [] (logged_out st))
  user (name ∷ []) st = user_named name (find_user name database) (set_user [] (logged_out st))
  user (name ∷ more ∷ rest) st =
      reply syntax_error (codes "Syntax: USER <username>") (set_user [] (logged_out st))

  abbrev pub check_password : List Text → State fs → State fs
  check_password [] st = reply syntax_error (codes "Syntax: PASS <password>") st
  check_password (given ∷ []) st =
      if password_is given (find_user st.session.username database)
      then reply logged_in (codes "User logged in.")
          (record st { session = record st.session { authenticated = true } })
      else reply not_logged_in (codes "Not logged in, password incorrect.") st
  check_password (given ∷ more ∷ rest) st = reply syntax_error (codes "Syntax: PASS <password>") st

  -- PASS
  unfoldable pub pass_command : List Text → State fs → State fs
  unfolding find_user
  pass_command args st =
      if is_empty st.session.username
      then reply bad_sequence (codes "Log in with USER first.") st
      else check_password args (logged_out st)

  -- QUIT
  unfoldable pub quit : List Text → State fs → State fs
  quit args st =
      let st' = emit shut_down (reply goodbye (codes "Service closing control connection.") st) in
      record st' {
        session = record st'.session { socket = none };
        events = st'.events ++ closing st.session.socket;
      }

  -- NOOP
  unfoldable pub noop : List Text → State fs → State fs
  noop args st = reply action_completed (codes "NOOP OK.") st
