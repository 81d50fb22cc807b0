-- ===== src/Control/Replied/Every.antt =====
-- Every command is answered.
use socket_programming.Base.{
  ℕ, ◌≤◌, ◌<◌, ◌≡◌, not, ◌&&◌, List, ◌++◌, false, arith, some, ◌⊎◌, inl, inr, refl,
}
use socket_programming.Text.{Text, codes, text_eq}
use socket_programming.ReplyCode.{syntax_error, not_logged_in, bad_sequence}
use socket_programming.FileSystem.{FilePath, FileSystem}
use socket_programming.FileSystem.Directory.{
  change_dir, change_to_parent, make_dir, remove_dir, delete_file, rename_from,
}
use socket_programming.FileSystem.Guarded.{when_some_rule}
use socket_programming.FileSystem.Quiet.{Quiet, change_dir-some, make_dir-some, remove_dir-some}
use socket_programming.Control.Parser.{ParsedCommand}
use socket_programming.Control.State.{
  State, Answers, has_thrown, reply, clear_data_state, join_completed_transfer,
}
use socket_programming.Control.FileCommands.{
  first_or_empty, cwd, cdup, mkd, rmd, size, mdtm, dele, rnfr,
}
use socket_programming.Control.Dispatch.{
  Command, user_, pass_, quit_, noop_, pwd_, cwd_, cdup_, mkd_, rmd_, list_, nlst_, stat_, size_,
  mdtm_, dele_, rnfr_, rnto_, pasv_, port_, retr_, stor_, stou_, appe_, hash_, type_, mode_, abor_,
  help_, command_map, find_command, is_open_command, run_command, execute_command,
}
use socket_programming.Control.Invariant.FileCommands.{if_rule}
use socket_programming.Control.Replied.{
  replies, replies_le_outcomes, outcomes-replies, Excused, Waiting, Answered,
  session_reply-Answered, reply-Answered, clear_data_state-Waiting, join_completed_transfer-Waiting,
}
use socket_programming.Control.Replied.DataCommands.{
  pasv-Done, port-Done, retr-Done, stor-Done, appe-Done, stou-Done, abor-Done,
}
use socket_programming.Control.Replied.Commands.{
  user-Done, pass_command-Done, quit-Done, noop-Done, pwd-Done, dir_or_throw-Done,
  files_or_throw-Done, with_dir-Done, with_files-Done, with_source-Done, list_command-Done,
  stat-Done, file_fact-Done, rnto-Done, hash-Done, type_command-Done, mode_command-Done, help-Done,
}

module _ {fs : FileSystem} (root : FilePath) (b socket n : ℕ) (excused : Excused b fs) where
  abbrev Open : State fs → Type 0
  Open st = Waiting b socket n st

  abbrev Done : State fs → Type 0
  Done st = Answered b socket n st

  -- A command that answers, whatever its arguments.
  abbrev Answering : (List Text → State fs → State fs) → Type 0
  Answering command = (args : List Text) (st : State fs) → Open st → Done (command args st)

  replied_ : (code : ℕ) (message : Text) (st : State fs) → Open st → Done (reply code message st)
  replied_ = reply-Answered b socket n

  cleared : (st : State fs) → Open st → Open (clear_data_state st)
  cleared = clear_data_state-Waiting b socket n

  run_command-Done : (c : Command) (answers : Answers fs) → Answering (run_command root c answers)
  unfolding run_command cwd cdup mkd rmd dele rnfr size mdtm
  run_command-Done user_ answers args st h = user-Done root b socket n excused args st h
  run_command-Done pass_ answers args st h = pass_command-Done root b socket n excused args st h
  run_command-Done quit_ answers args st h = quit-Done root b socket n excused args st h
  run_command-Done noop_ answers args st h = noop-Done root b socket n excused args st h
  run_command-Done pwd_ answers args st h = pwd-Done root b socket n excused args st h
  run_command-Done cwd_ answers args st h =
      dir_or_throw-Done root b socket n excused
        (change_dir fs root st.files st.session.current_dir (first_or_empty args))
        (λ q. change_dir-some fs root q st.files st.session.current_dir (first_or_empty args)) st h
  run_command-Done cdup_ answers args st h =
      with_dir-Done root b socket n excused
        (change_to_parent fs root st.files st.session.current_dir) st h
  run_command-Done mkd_ answers args st h =
      files_or_throw-Done root b socket n excused
        (make_dir fs root st.session.current_dir (first_or_empty args) st.files)
        (λ q. make_dir-some fs root q st.session.current_dir (first_or_empty args) st.files) st h
  run_command-Done rmd_ answers args st h =
      files_or_throw-Done root b socket n excused
        (remove_dir fs root st.session.current_dir (first_or_empty args) st.files)
        (λ q. remove_dir-some fs root q st.session.current_dir (first_or_empty args) st.files) st h
  run_command-Done list_ answers args st h = list_command-Done root b socket n excused _ _ args st h
  run_command-Done nlst_ answers args st h = list_command-Done root b socket n excused _ _ args st h
  run_command-Done stat_ answers args st h = stat-Done root b socket n excused args st h
  run_command-Done size_ answers args st h = file_fact-Done root b socket n excused _ _ args st h
  run_command-Done mdtm_ answers args st h = file_fact-Done root b socket n excused _ _ args st h
  run_command-Done dele_ answers args st h =
      with_files-Done root b socket n excused
        (delete_file fs root st.session.current_dir (first_or_empty args) st.files) st h
  run_command-Done rnfr_ answers args st h =
      with_source-Done root b socket n excused
        (rename_from fs root st.files st.session.current_dir (first_or_empty args)
          st.session.pending_rename_source)
        st h
  run_command-Done rnto_ answers args st h = rnto-Done root b socket n excused args st h
  run_command-Done pasv_ answers args st h = pasv-Done root b socket n answers args st h
  run_command-Done port_ answers args st h = port-Done root b socket n answers args st h
  run_command-Done retr_ answers args st h = retr-Done root b socket n answers args st h
  run_command-Done stor_ answers args st h = stor-Done root b socket n answers args st h
  run_command-Done stou_ answers args st h = stou-Done root b socket n answers args st h
  run_command-Done appe_ answers args st h = appe-Done root b socket n answers args st h
  run_command-Done hash_ answers args st h = hash-Done root b socket n excused args st h
  run_command-Done type_ answers args st h = type_command-Done root b socket n excused args st h
  run_command-Done mode_ answers args st h = mode_command-Done root b socket n excused args st h
  run_command-Done abor_ answers args st h = abor-Done root b socket n answers args st h
  run_command-Done help_ answers args st h = help-Done root b socket n excused args st h

  execute_command-Done :
      (answers : Answers fs) (cmd : ParsedCommand) (st : State fs)
      → Open st
      → Done (execute_command root answers cmd st)
  unfolding execute_command
  execute_command-Done answers cmd st (o, h) =
      if_rule Done (not st.session.authenticated && not (is_open_command cmd.type)) _ _
        (replied_ not_logged_in (codes "Please log in using USER and PASS.") st (o, h))
        (if_rule Done (st.session.transfer_active && not (text_eq cmd.type (codes "ABOR"))) _ _
          (session_reply-Answered b socket n bad_sequence
            (codes "Transfer already in progress; use ABOR first.") st (o, h))
          (when_some_rule Done (find_command cmd.type command_map) _ _
            (replied_ syntax_error (codes "Command not found: " ++ cmd.type)
              (join_completed_transfer st) (join_completed_transfer-Waiting b socket n st (o, h)))
            λ c e.
              run_command-Done c answers cmd.args (join_completed_transfer st)
                (join_completed_transfer-Waiting b socket n st (o, h))))

module _ {fs : FileSystem} (root : FilePath) (socket n : ℕ) where
  -- More replies than before, where an exception counts for nothing or has not been.
  counted :
      (b : ℕ)
      → Excused b fs
      → (answers : Answers fs) (cmd : ParsedCommand) (st : State fs)
      → st.session.socket ≡ some socket
      → n ≤ replies st.events
      → (has_thrown (execute_command root answers cmd st).events ≡ false) ⊎ (b ≡ 0)
      → n < replies (execute_command root answers cmd st).events
  counted b excused answers cmd st o h calm = omega (
    arith,
    execute_command-Done root b socket n excused answers cmd st
        (o, omega (arith, h, replies_le_outcomes b st.events)),
    outcomes-replies b (execute_command root answers cmd st).events calm,
  )

  -- A command on a session whose control socket is open, after `n` replies at least, is followed by one
  -- more reply at least, unless an exception has ended the process, and always where the queries that may
  -- throw report no error: whatever the command is and whatever else the system answers.
  pub execute_command-Answered :
      (answers : Answers fs) (cmd : ParsedCommand) (st : State fs)
      → st.session.socket ≡ some socket
      → n ≤ replies st.events
      → (has_thrown (execute_command root answers cmd st).events ≡ false) ⊎ Quiet fs
      → n < replies (execute_command root answers cmd st).events
  execute_command-Answered answers cmd st o h (inl calm) =
      counted 1 (inr refl) answers cmd st o h (inl calm)
  execute_command-Answered answers cmd st o h (inr quiet) =
      counted 0 (inl quiet) answers cmd st o h (inr refl)
