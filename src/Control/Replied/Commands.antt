-- ===== src/Control/Replied/Commands.antt =====
-- Every command is answered.
use socket_programming.Base.{
  ℕ, ◌≡◌, refl, sym, ◌∙◌, inl, inr, Bool, true, false, not, ◌&&◌, List, [], ◌∷◌, ◌++◌, Option, none,
  some, if◌then◌else◌, arith,
}
use socket_programming.Text.{Text, codes, is_empty, text_eq, uppercase}
use socket_programming.ReplyCode.{syntax_error, help_message, goodbye}
use socket_programming.FileSystem.{FilePath, FileSystem}
use socket_programming.FileSystem.Resolver.{resolve}
use socket_programming.FileSystem.Directory.{
  Listing, listed, not_listed, list_threw, print_working_dir, Result, PathMetadata, list_dir,
  rename_to,
}
use socket_programming.FileSystem.Guarded.{when_some_rule, test_rule}
use socket_programming.FileSystem.Quiet.{Quiet, print_working_dir-some, list_dir-not_threw}
use socket_programming.Control.ClientSession.{ascii, binary}
use socket_programming.Control.State.{
  State, shut_down, threw, emit, replied, reply, clear_data_state,
}
use socket_programming.Control.Login.{
  database, find_user, password_is, set_user, logged_out, user_named, check_password, user,
  pass_command, quit, noop, closing,
}
use socket_programming.Control.FileCommands.{
  first_or_empty, has_more, metadata_of, file_fact, result_or_throw, dir_or_throw, files_or_throw,
  show_listing, with_dir, with_files, with_source, pwd, list_command, stat, rnto, hash,
}
use socket_programming.Control.InfoCommands.{
  one_upper, type_command, mode_command, help, lookup_text,
}
use socket_programming.Control.HelpTexts.{help_map}
use socket_programming.Control.Invariant.FileCommands.{if_rule}
use socket_programming.Control.Replied.{
  outcomes-append, Waiting, Answered, Excused, reply-Answered, reply_lines-Answered,
  clear_data_state-Waiting,
}

module _ {fs : FileSystem} (root : FilePath) (b socket n : ℕ) (excused : Excused b fs) where
  abbrev Open : State fs → Type 0
  Open st = Waiting b socket n st

  abbrev Done : State fs → Type 0
  Done st = Answered b socket n st

  -- A command that answers, whatever its arguments.
  abbrev Answering : (List Text → State fs → State fs) → Type 0
  Answering command = (args : List Text) (st : State fs) → Open st → Done (command args st)

  replied_ : (code : ℕ) (message : Text) (st : State fs) → Open st → Done (reply code message st)
  replied_ = reply-Answered b socket n

  cleared : (st : State fs) → Open st → Open (clear_data_state st)
  cleared = clear_data_state-Waiting b socket n

  user_named-Done :
      (name : Text) (o : Option Text) (st : State fs) → Open st → Done (user_named name o st)
  user_named-Done name none st h = replied_ _ _ st h
  user_named-Done name (some password) st h = replied_ _ _ (set_user name st) h

  pub user-Done : Answering user
  unfolding user
  user-Done [] st h = replied_ _ _ (set_user [] (logged_out st)) h
  user-Done (name ∷ []) st h =
      user_named-Done name (find_user name database) (set_user [] (logged_out st)) h
  user-Done (name ∷ more ∷ rest) st h = replied_ _ _ (set_user [] (logged_out st)) h

  check_password-Done : Answering check_password
  check_password-Done [] st h = replied_ _ _ st h
  check_password-Done (given ∷ []) st h =
      if_rule Done (password_is given (find_user st.session.username database)) _ _
        (replied_ _ _ (record st { session = record st.session { authenticated = true } }) h)
        (replied_ _ _ st h)
  check_password-Done (given ∷ more ∷ rest) st h = replied_ _ _ st h

  pub pass_command-Done : Answering pass_command
  unfolding pass_command
  pass_command-Done args st h =
      if_rule Done (is_empty st.session.username) _ _ (replied_ _ _ st h)
        (check_password-Done args (logged_out st) h)

  pub quit-Done : Answering quit
  unfolding quit
  quit-Done args st h = omega (
    arith,
    h.1,
    outcomes-append b st.events
        (replied goodbye (codes "Service closing control connection.") ∷ []),
    outcomes-append b
        (st.events ++ replied goodbye (codes "Service closing control connection.") ∷ [])
        (shut_down ∷ []),
    outcomes-append b
        ((st.events ++ replied goodbye (codes "Service closing control connection.") ∷ [])
          ++ shut_down ∷ [])
        (closing st.session.socket),
  )

  pub noop-Done : Answering noop
  unfolding noop
  noop-Done args st h = replied_ _ _ st h

  -- An exception, which a quiet file system does not give.
  threw_ : (st : State fs) → ¬ Quiet fs → Open st → Done (emit threw st)
  threw_ st not_quiet (o, h) = elim excused [
    | inl quiet ↦ absurd (not_quiet quiet)
    | inr one ↦ omega (arith, h, one, outcomes-append b st.events (threw ∷ []))
  ]

  pub result_or_throw-Done :
      (o : Option Result)
      → (Quiet fs → ¬ (o ≡ none))
      → (st : State fs) → Open st
      → Done (result_or_throw o st)
  result_or_throw-Done none is_some st h = threw_ st (λ q. is_some q refl) h
  result_or_throw-Done (some r) is_some st h = replied_ r.code r.message st h

  pub pwd-Done : Answering (pwd root)
  unfolding pwd
  pwd-Done args st h =
      result_or_throw-Done (print_working_dir fs root st.files st.session.current_dir)
        (λ q. print_working_dir-some fs root q st.files st.session.current_dir) st h

  pub dir_or_throw-Done :
      (x : FilePath × Option Result)
      → (Quiet fs → ¬ (x.1 ≡ none))
      → (st : State fs) → Open st
      → Done (dir_or_throw x st)
  dir_or_throw-Done (dir, r) is_some st h =
      result_or_throw-Done r is_some
        (record st { session = record st.session { current_dir = dir } }) h

  pub files_or_throw-Done :
      (x : fs.W × Option Result)
      → (Quiet fs → ¬ (x.1 ≡ none))
      → (st : State fs) → Open st
      → Done (files_or_throw x st)
  files_or_throw-Done (files, r) is_some st h =
      result_or_throw-Done r is_some (record st { files = files }) h

  show_listing-Done :
      (names_only : Bool) (l : Listing)
      → (Quiet fs → ¬ (l ≡ list_threw))
      → (st : State fs) → Open st
      → Done (show_listing root names_only l st)
  show_listing-Done names_only list_threw calm st h = threw_ st (λ q. calm q refl) h
  show_listing-Done names_only not_listed calm st h = replied_ _ _ st h
  show_listing-Done names_only (listed es) calm st h = reply_lines-Answered b socket n _ _ st h

  pub with_dir-Done : (x : FilePath × Result) (st : State fs) → Open st → Done (with_dir x st)
  with_dir-Done (dir, r) st h =
      replied_ r.code r.message (record st { session = record st.session { current_dir = dir } }) h

  pub with_files-Done : (x : fs.W × Result) (st : State fs) → Open st → Done (with_files x st)
  with_files-Done (files, r) st h = replied_ r.code r.message (record st { files = files }) h

  pub with_source-Done :
      (x : FilePath × Result) (st : State fs) → Open st → Done (with_source root x st)
  with_source-Done (source, r) st h =
      replied_ r.code r.message
        (record st {
          session = record st.session {
            pending_rename_source = source;
            has_pending_rename = r.is_ok;
          };
        })
        h

  pub list_command-Done :
      (names_only : Bool) (usage : Text) → Answering (list_command root names_only usage)
  unfolding list_command
  list_command-Done names_only usage args st h =
      if_rule Done (has_more args) _ _ (replied_ _ _ st h) (
        show_listing-Done names_only
          (list_dir fs root st.files st.session.current_dir (first_or_empty args))
          (λ q. list_dir-not_threw fs root q st.files st.session.current_dir (first_or_empty args))
          st h)

  pub stat-Done : Answering (stat root)
  unfolding stat
  stat-Done [] st h = replied_ _ _ st h
  stat-Done (target ∷ args) st h =
      when_some_rule Done (metadata_of root st target) _ _ (replied_ _ _ st h)
        λ m e. replied_ _ _ st h

  pub file_fact-Done :
      (show : PathMetadata → Text) (failure : Text) → Answering (file_fact root show failure)
  file_fact-Done show failure [] st h = replied_ _ _ st h
  file_fact-Done show failure (target ∷ args) st h =
      when_some_rule Done (metadata_of root st target) _ _ (replied_ _ _ st h)
        λ m e. if_rule Done m.is_directory _ _ (replied_ _ _ st h) (replied_ _ _ st h)

  pub rnto-Done : Answering (rnto root)
  unfolding rnto
  rnto-Done args st h = if_rule Done (not st.session.has_pending_rename) _ _ (replied_ _ _ st h) (
      with_files-Done
        (rename_to fs root st.session.current_dir st.session.pending_rename_source
          (first_or_empty args) st.files)
        (record st { session = record st.session { has_pending_rename = false } }) h)

  both : {x : Bool} → x ≡ true → ¬ (x ≡ false)
  both e f = clash (sym e ∙ f)
    where
      clash : ¬ (true ≡ false)
      clash g = cc g

  pub hash-Done : Answering (hash root)
  unfolding hash
  hash-Done [] st h = replied_ _ _ st h
  hash-Done (target ∷ args) st h =
      when_some_rule Done (resolve fs root st.files st.session.current_dir target) _ _
        (replied_ _ _ st h)
        λ p e.
          test_rule Done (fs.exists st.files p).1 _ _
            (λ error. threw_ st (λ q. both error (q.exists_ok st.files p)) h)
            λ fine.
              (if_rule Done (not (fs.exists st.files p).0) _ _ (replied_ _ _ st h) (
                if_rule Done (is_empty (fs.hash_file st.files p)) _ _ (replied_ _ _ st h)
                  (replied_ _ _ st h)))

  pub type_command-Done : Answering type_command
  unfolding type_command
  type_command-Done args st h =
      let type = one_upper args in
      if_rule Done (not (text_eq type (codes "A")) && not (text_eq type (codes "I"))) _ _
        (replied_ _ _ st h)
        (replied_ _ _
          (record st {
            session = record st.session {
              transfer_mode = if text_eq type (codes "A") then ascii else binary;
            };
          })
          h)

  pub mode_command-Done : Answering mode_command
  unfolding mode_command
  mode_command-Done args st h =
      let mode = one_upper args in
      if_rule Done
        (not (text_eq mode (codes "S"))
          && not (text_eq mode (codes "B"))
          && not (text_eq mode (codes "C")))
        _ _ (replied_ _ _ st h)
        (if_rule Done (not (text_eq mode (codes "S"))) _ _ (replied_ _ _ st h) (replied_ _ _ st h))

  pub help-Done : Answering help
  unfolding help
  help-Done [] st h = reply_lines-Answered b socket n _ _ st h
  help-Done (name ∷ args) st h =
      when_some_rule Done (lookup_text (uppercase name) help_map) _ _
        (replied_ syntax_error (codes "Command not found: " ++ name) st h)
        λ text e. reply_lines-Answered b socket n help_message text st h
