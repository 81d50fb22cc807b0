-- ===== src/Control/FileCommands.antt =====
-- The commands on files and directories: `commandMap` of server/src/control/CommandDispatcher.cpp.
use socket_programming.Base.{
  Bool, true, false, not, List, [], ◌∷◌, ◌++◌, Option, none, some, if◌then◌else◌,
}
use socket_programming.Text.{Text, codes, is_empty}
use socket_programming.ReplyCode.{
  syntax_error, action_not_taken, action_completed, file_status, system_status,
}
use socket_programming.FileSystem.{FilePath, FileSystem}
use socket_programming.FileSystem.Resolver.{resolve}
use socket_programming.FileSystem.Directory.{
  Listing, listed, not_listed, list_threw, Result, DirEntryInfo, PathMetadata, when_some,
  print_working_dir, change_dir, change_to_parent, make_dir, remove_dir, list_dir, get_metadata,
  delete_file, rename_from, rename_to,
}
use socket_programming.Control.Registry.{count}
use socket_programming.Control.State.{State, threw, emit, reply, reply_lines}

-- `args.empty() ? "" : args[0]`
abbrev pub first_or_empty : List Text → Text
first_or_empty [] = []
first_or_empty (a ∷ args) = a

abbrev pub has_more : List Text → Bool
has_more [] = false
has_more (a ∷ []) = false
has_more (a ∷ b ∷ args) = true

abbrev pub kind_text : Bool → Text
kind_text is_dir = if is_dir then codes "directory" else codes "file"

module _ (fs : FileSystem) where
  -- `formatDirectoryListing`
  abbrev pub entry_line : Bool → DirEntryInfo → Text
  entry_line names_only e =
      if names_only
      then e.name
      else e.format_permissions ++ 32 ∷ fs.to_string e.size_bytes ++ 32 ∷ e.name

  abbrev pub format_directory_listing : Bool → List DirEntryInfo → Text
  format_directory_listing names_only [] = []
  format_directory_listing names_only (e ∷ []) = entry_line names_only e
  format_directory_listing names_only (e ∷ d ∷ es) =
      entry_line names_only e ++ 10 ∷ format_directory_listing names_only (d ∷ es)

module _ {fs : FileSystem} where
  -- `replyWithCode(s.socket, r.code, r.message)`
  abbrev pub reply_result : Result → State fs → State fs
  reply_result r st = reply r.code r.message st

  -- The results of the operations that may throw.
  abbrev pub result_or_throw : Option Result → State fs → State fs
  result_or_throw none st = emit threw st
  result_or_throw (some r) st = reply_result r st

  abbrev pub dir_or_throw : FilePath × Option Result → State fs → State fs
  dir_or_throw (dir, r) st =
      result_or_throw r (record st { session = record st.session { current_dir = dir } })

  abbrev pub files_or_throw : fs.W × Option Result → State fs → State fs
  files_or_throw (files, r) st = result_or_throw r (record st { files = files })

  abbrev pub with_dir : FilePath × Result → State fs → State fs
  with_dir (dir, r) st =
      reply_result r (record st { session = record st.session { current_dir = dir } })

  abbrev pub with_files : fs.W × Result → State fs → State fs
  with_files (files, r) st = reply_result r (record st { files = files })

module _ {fs : FileSystem} (root : FilePath) where
  unfoldable pub pwd : List Text → State fs → State fs
  pwd args st = result_or_throw (print_working_dir fs root st.files st.session.current_dir) st

  unfoldable pub cwd : List Text → State fs → State fs
  cwd args st =
      dir_or_throw (change_dir fs root st.files st.session.current_dir (first_or_empty args)) st

  unfoldable pub cdup : List Text → State fs → State fs
  cdup args st = with_dir (change_to_parent fs root st.files st.session.current_dir) st

  unfoldable pub mkd : List Text → State fs → State fs
  mkd args st =
      files_or_throw (make_dir fs root st.session.current_dir (first_or_empty args) st.files) st

  unfoldable pub rmd : List Text → State fs → State fs
  rmd args st =
      files_or_throw (remove_dir fs root st.session.current_dir (first_or_empty args) st.files) st

  abbrev pub show_listing : Bool → Listing → State fs → State fs
  show_listing names_only list_threw st = emit threw st
  show_listing names_only not_listed st =
      reply action_not_taken (codes "Could not list directory.") st
  show_listing names_only (listed entries) st =
      reply_lines action_completed (format_directory_listing fs names_only entries) st

  -- LIST and NLST
  unfoldable pub list_command : Bool → Text → List Text → State fs → State fs
  list_command names_only usage args st =
      if has_more args
      then reply syntax_error usage st
      else show_listing names_only
          (list_dir fs root st.files st.session.current_dir (first_or_empty args)) st

  abbrev pub metadata_of : State fs → Text → Option PathMetadata
  metadata_of st target = get_metadata fs root st.files st.session.current_dir target

  unfoldable pub stat : List Text → State fs → State fs
  stat [] st =
      reply system_status
        (codes "Server status: OK."
          ++ fs.to_string (count st.registry)
          ++ codes " client(s) connected.")
        st
  stat (target ∷ args) st =
      when_some (metadata_of st target) (reply action_not_taken (codes "Path not found.") st)
        λ meta.
          reply file_status
            (target
              ++ codes ": "
              ++ kind_text meta.is_directory
              ++ codes ", "
              ++ fs.to_string meta.size_bytes
              ++ codes " bytes")
            st

  -- SIZE and MDTM: of a file, what `show` says.
  abbrev pub file_fact : (PathMetadata → Text) → Text → List Text → State fs → State fs
  file_fact show failure [] st = reply action_not_taken failure st
  file_fact show failure (target ∷ args) st =
      when_some (metadata_of st target) (reply action_not_taken failure st) λ meta.
        if meta.is_directory
        then reply action_not_taken failure st
        else reply file_status (show meta) st

  unfoldable pub size : List Text → State fs → State fs
  size args st =
      file_fact (λ meta. fs.to_string meta.size_bytes) (codes "Could not get file size.") args st

  unfoldable pub mdtm : List Text → State fs → State fs
  mdtm args st =
      file_fact (λ meta. fs.format_time meta.last_modified)
        (codes "Could not get modification time.") args st

  unfoldable pub dele : List Text → State fs → State fs
  dele args st =
      with_files (delete_file fs root st.session.current_dir (first_or_empty args) st.files) st

  abbrev pub with_source : FilePath × Result → State fs → State fs
  with_source (source, r) st = reply_result r (record st {
    session = record st.session { pending_rename_source = source; has_pending_rename = r.is_ok };
  })

  unfoldable pub rnfr : List Text → State fs → State fs
  rnfr args st =
      let s = st.session in
      with_source
        (rename_from fs root st.files s.current_dir (first_or_empty args) s.pending_rename_source)
        st

  unfoldable pub rnto : List Text → State fs → State fs
  rnto args st =
      let s = st.session in
      if not s.has_pending_rename
      then reply action_not_taken (codes "RNFR required first.") st
      else with_files
          (rename_to fs root s.current_dir s.pending_rename_source (first_or_empty args) st.files)
          (record st { session = record s { has_pending_rename = false } })

  -- HASH of a path that resolves.
  abbrev pub hash_at : FilePath → State fs → State fs
  hash_at resolved st =
      if (fs.exists st.files resolved).1
      then emit threw st
      else if not (fs.exists st.files resolved).0
      then reply action_not_taken (codes "File not found.") st
      else if is_empty (fs.hash_file st.files resolved)
      then reply action_not_taken (codes "Hash computation failed.") st
      else reply file_status (codes "SHA-256 " ++ fs.hash_file st.files resolved) st

  unfoldable pub hash : List Text → State fs → State fs
  hash [] st = reply action_not_taken (codes "File not found.") st
  hash (target ∷ args) st =
      when_some (resolve fs root st.files st.session.current_dir target)
        (reply action_not_taken (codes "File not found.") st) λ resolved. hash_at resolved st
