-- ===== src/Control/Invariant/Commands.antt =====
-- Every command, and the end of the session, keep the session safe.
use socket_programming.Base.{
  ◌≡◌, refl, sym, ap, ◌∙◌, Bool, true, false, not, ◌&&◌, List, [], ◌∷◌, Option, none, some,
  if◌then◌else◌, Bool-cases, inl, inr,
}
use socket_programming.Text.{Text, codes, is_empty, text_eq, text_eq_sound}
use socket_programming.FileSystem.{FilePath, FileSystem}
use socket_programming.FileSystem.Guarded.{Untouched, Guarded, when_some_rule}
use socket_programming.Control.Parser.{ParsedCommand}
use socket_programming.Control.State.{State, Answers, join_completed_transfer}
use socket_programming.Control.Transfers.{worker_ends}
use socket_programming.Control.Login.{
  database, find_user, password_is, set_user, logged_out, user_named, check_password, user,
  pass_command, quit, noop,
}
use socket_programming.Control.InfoCommands.{one_upper, type_command, mode_command, help}
use socket_programming.Control.Dispatch.{
  Command, user_, pass_, quit_, noop_, pwd_, cwd_, cdup_, mkd_, rmd_, list_, nlst_, stat_, size_,
  mdtm_, dele_, rnfr_, rnto_, pasv_, port_, retr_, stor_, stou_, appe_, hash_, type_, mode_, abor_,
  help_, command_map, find_command, is_open_command, run_command, execute_command, shutdown_session,
}
use socket_programming.Control.Invariant.{
  IsSafe, session_reply-IsSafe, clear_data_state-IsSafe, join_completed_transfer-IsSafe,
}
use socket_programming.Control.Invariant.Ends.{worker_ends-IsSafe}
use socket_programming.Control.Invariant.FileCommands.{
  if_rule, pwd-Keeps, cwd-Keeps, cdup-Keeps, mkd-Keeps, rmd-Keeps, dele-Keeps, list_command-Keeps,
  stat-Keeps, size-Keeps, mdtm-Keeps, rnfr-Keeps, rnto-Keeps, hash-Keeps,
}
use socket_programming.Control.Invariant.DataCommands.{
  pasv-Keeps, port-Keeps, retr-Keeps, stor-Keeps, appe-Keeps, stou-Keeps, abor-Keeps, idle,
}

-- The password that is right for a user.
abbrev pub HasPassword : Text → Text → Type 0
HasPassword name given = find_user name database ≡ some given

password_is_sound : (given : Text) (o : Option Text) → password_is given o ≡ true → o ≡ some given
password_is_sound given none e = cc e
password_is_sound given (some password) e = ap some (sym (text_eq_sound given password e))

module _ {fs : FileSystem} (root : FilePath) (A : Text → Type 0) (Low : FilePath → Type 0)
    (P : fs.W → Type 0) (u : Untouched fs root Low P) (g : Guarded fs root Low P) where
  open fs use {W}

  abbrev Good : State fs → Type 0
  Good st = IsSafe root A P st

  abbrev Keeps : (List Text → State fs → State fs) → Type 0
  Keeps command = (args : List Text) (st : State fs) → Good st → Good (command args st)

  -- A session that nobody is logged in to.
  out : (name : Text) (st : State fs) → Good st → Good (set_user name (logged_out st))
  out name st (p, (l, rest)) = (p, (λ e. cc e, rest))

  user_named-Good :
      (name : Text) (o : Option Text) (st : State fs)
      → Good st
      → Good (user_named name o (set_user [] (logged_out st)))
  user_named-Good name none st h = out [] st h
  user_named-Good name (some password) st (p, (l, rest)) = (p, (λ e. cc e, rest))

  user-Keeps : Keeps user
  unfolding user
  user-Keeps [] st h = out [] st h
  user-Keeps (name ∷ []) st h = user_named-Good name (find_user name database) st h
  user-Keeps (name ∷ more ∷ rest) st h = out [] st h

  -- What PASS needs: whoever logs in with the right password is in `A`.
  abbrev Admits : List Text → State fs → Type 0
  Admits args st =
      (given : Text)
      → args ≡ given ∷ []
      → HasPassword st.session.username given
      → A st.session.username

  check_password-Good :
      (args : List Text) (st : State fs)
      → Admits args st
      → Good st
      → Good (check_password args (logged_out st))
  check_password-Good [] st admits (p, (l, rest)) = (p, (λ e. cc e, rest))
  check_password-Good (given ∷ more ∷ args) st admits (p, (l, rest)) = (p, (λ e. cc e, rest))
  check_password-Good (given ∷ []) st admits (p, (l, rest)) =
      elim (Bool-cases (password_is given (find_user st.session.username database))) [
        | inl e ↦ simp e (p, (λ on. admits given refl (password_is_sound given _ e), rest))
        | inr e ↦ simp e (p, (λ on. cc on, rest))
      ]

  pass-Keeps :
      (args : List Text) (st : State fs) → Admits args st → Good st → Good (pass_command args st)
  unfolding pass_command
  pass-Keeps args st admits h =
      if_rule Good (is_empty st.session.username) _ _ h (check_password-Good args st admits h)

  quit-Keeps : Keeps quit
  unfolding quit
  quit-Keeps args st h = h

  noop-Keeps : Keeps noop
  unfolding noop
  noop-Keeps args st h = h

  type_command-Keeps : Keeps type_command
  unfolding type_command
  type_command-Keeps args st h = if_rule Good _ _ _ h h

  mode_command-Keeps : Keeps mode_command
  unfolding mode_command
  mode_command-Keeps args st h =
      let mode = one_upper args in
      if_rule Good
        (not (text_eq mode (codes "S"))
          && not (text_eq mode (codes "B"))
          && not (text_eq mode (codes "C")))
        _ _ h (if_rule Good (not (text_eq mode (codes "S"))) _ _ h h)

  help-Keeps : Keeps help
  unfolding help
  help-Keeps [] st h = h
  help-Keeps (name ∷ args) st h = when_some_rule Good _ _ _ h λ text e. h

  abbrev Calm : Answers fs → Type 0
  Calm answers = (w : W) → P w → P (answers.worker_files w)

  run_command-Good :
      (c : Command) (answers : Answers fs)
      → Calm answers
      → (args : List Text) (st : State fs) → (c ≡ pass_ → Admits args st)
      → Good st
      → Good (run_command root c answers args st)
  unfolding run_command
  run_command-Good user_ answers calm args st admits = user-Keeps args st
  run_command-Good pass_ answers calm args st admits = pass-Keeps args st (admits refl)
  run_command-Good quit_ answers calm args st admits = quit-Keeps args st
  run_command-Good noop_ answers calm args st admits = noop-Keeps args st
  run_command-Good pwd_ answers calm args st admits = pwd-Keeps root A Low P u g args st
  run_command-Good cwd_ answers calm args st admits = cwd-Keeps root A Low P u g args st
  run_command-Good cdup_ answers calm args st admits = cdup-Keeps root A Low P u g args st
  run_command-Good mkd_ answers calm args st admits = mkd-Keeps root A Low P u g args st
  run_command-Good rmd_ answers calm args st admits = rmd-Keeps root A Low P u g args st
  run_command-Good list_ answers calm args st admits =
      list_command-Keeps root A Low P u g _ _ args st
  run_command-Good nlst_ answers calm args st admits =
      list_command-Keeps root A Low P u g _ _ args st
  run_command-Good stat_ answers calm args st admits = stat-Keeps root A Low P u g args st
  run_command-Good size_ answers calm args st admits = size-Keeps root A Low P u g args st
  run_command-Good mdtm_ answers calm args st admits = mdtm-Keeps root A Low P u g args st
  run_command-Good dele_ answers calm args st admits = dele-Keeps root A Low P u g args st
  run_command-Good rnfr_ answers calm args st admits = rnfr-Keeps root A Low P u g args st
  run_command-Good rnto_ answers calm args st admits = rnto-Keeps root A Low P u g args st
  run_command-Good pasv_ answers calm args st admits = pasv-Keeps root A Low P u g answers args st
  run_command-Good port_ answers calm args st admits = port-Keeps root A Low P u g answers args st
  run_command-Good retr_ answers calm args st admits = retr-Keeps root A Low P u g answers args st
  run_command-Good stor_ answers calm args st admits = stor-Keeps root A Low P u g answers args st
  run_command-Good stou_ answers calm args st admits = stou-Keeps root A Low P u g answers args st
  run_command-Good appe_ answers calm args st admits = appe-Keeps root A Low P u g answers args st
  run_command-Good hash_ answers calm args st admits = hash-Keeps root A Low P u g args st
  run_command-Good type_ answers calm args st admits = type_command-Keeps args st
  run_command-Good mode_ answers calm args st admits = mode_command-Keeps args st
  run_command-Good abor_ answers calm args st admits =
      abor-Keeps root A Low P u g answers calm args st
  run_command-Good help_ answers calm args st admits = help-Keeps args st

  -- The join leaves the user alone.
  joined_password :
      (is_active : Bool) (args : List Text) (st : State fs)
      → Admits args st
      → Admits args (
          join_completed_transfer
            (record st { session = record st.session { transfer_active = is_active } }))
  joined_password true args st admits = admits
  joined_password false args st admits = admits

  join_keeps_password :
      (args : List Text) (st : State fs) → Admits args st → Admits args (join_completed_transfer st)
  join_keeps_password args st admits = joined_password st.session.transfer_active args st admits

  pub execute_command-IsSafe :
      (answers : Answers fs) (cmd : ParsedCommand)
      → Calm answers
      → (st : State fs) → (find_command cmd.type command_map ≡ some pass_ → Admits cmd.args st)
      → Good st
      → Good (execute_command root answers cmd st)
  unfolding execute_command
  execute_command-IsSafe answers cmd calm st admits h =
      if_rule Good (not st.session.authenticated && not (is_open_command cmd.type)) _ _ h (
        if_rule Good (st.session.transfer_active && not (text_eq cmd.type (codes "ABOR"))) _ _
          (session_reply-IsSafe root A P _ _ st h)
          (when_some_rule Good (find_command cmd.type command_map) _ _
            (join_completed_transfer-IsSafe root A P st h)
            λ c e.
              run_command-Good c answers calm cmd.args (join_completed_transfer st)
                (λ is_pass. join_keeps_password cmd.args st (admits (e ∙ ap some is_pass)))
                (join_completed_transfer-IsSafe root A P st h)))

  pub shutdown_session-IsSafe :
      (answers : Answers fs)
      → Calm answers
      → (st : State fs) → Good st
      → Good (shutdown_session root answers st)
  unfolding shutdown_session
  shutdown_session-IsSafe answers calm st h =
      let stopped = record st { session = record st.session { abort_requested = true } } in
      let ended = worker_ends answers.worker_files false [] stopped in
      let waited = if st.session.transfer_active then ended else stopped in
      clear_data_state-IsSafe root A P
        (record waited {
          session = record waited.session { transfer_worker = none; transfer_active = false };
        })
        (idle root A Low P u g waited (
          if_rule Good st.session.transfer_active ended stopped
            (worker_ends-IsSafe root A P answers.worker_files false [] calm stopped h) h))
