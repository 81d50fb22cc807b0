-- ===== src/Control/Invariant/FileCommands.antt =====
-- The commands on files and directories keep a session safe.
use socket_programming.Base.{
  ◌≡◌, refl, Bool, true, false, not, List, [], ◌∷◌, ◌++◌, Option, none, some, if◌then◌else◌,
}
use socket_programming.Text.{Text, codes, is_empty}
use socket_programming.ReplyCode.{action_not_taken, file_status}
use socket_programming.FileSystem.{FilePath, FileSystem}
use socket_programming.FileSystem.Resolver.{Inside, resolve}
use socket_programming.FileSystem.Directory.{
  Result, PathMetadata, Listing, listed, not_listed, list_threw, print_working_dir, change_dir,
  change_to_parent, make_dir, remove_dir, list_dir, delete_file, rename_from, rename_to,
}
use socket_programming.FileSystem.Guarded.{Untouched, Guarded, when_some_rule}
use socket_programming.FileSystem.Confined.{
  make_dir-keeps, remove_dir-keeps, delete_file-keeps, rename_to-keeps, rename_from-Inside,
  change_dir-Inside, change_to_parent-Inside,
}
use socket_programming.Control.State.{State, threw, emit, reply}
use socket_programming.Control.FileCommands.{
  first_or_empty, has_more, metadata_of, file_fact, pwd, cwd, cdup, mkd, rmd, list_command, stat,
  size, mdtm, dele, rnfr, rnto, hash, hash_at, result_or_throw, dir_or_throw, files_or_throw,
  show_listing, with_dir, with_files, with_source,
}
use socket_programming.Control.Invariant.{IsSafe}

-- What holds in either branch holds of the test.
pub if_rule {ℓ} :
    {B : Type ℓ} (P : B → Type 0) (b : Bool) (x y : B) → P x → P y → P (if b then x else y)
if_rule P true x y hx hy = hx
if_rule P false x y hx hy = hy

module _ {fs : FileSystem} (root : FilePath) (A : Text → Type 0) (Low : FilePath → Type 0)
    (P : fs.W → Type 0) (u : Untouched fs root Low P) (g : Guarded fs root Low P) where
  open fs use {W}

  abbrev Good : State fs → Type 0
  Good st = IsSafe root A P st

  -- A command that keeps a session safe, whatever its arguments.
  abbrev Keeps : (List Text → State fs → State fs) → Type 0
  Keeps command = (args : List Text) (st : State fs) → Good st → Good (command args st)

  resulted : (o : Option Result) (st : State fs) → Good st → Good (result_or_throw o st)
  resulted none st h = h
  resulted (some r) st h = h

  pub pwd-Keeps : Keeps (pwd root)
  unfolding pwd
  pwd-Keeps args st h = resulted (print_working_dir fs root st.files st.session.current_dir) st h

  moved :
      (x : FilePath × Option Result)
      → Inside root x.0
      → (st : State fs) → Good st
      → Good (dir_or_throw x st)
  moved (dir, none) i st (p, rest) = (record { current = i; source = p.source }, rest)
  moved (dir, some r) i st (p, rest) = (record { current = i; source = p.source }, rest)

  pub cwd-Keeps : Keeps (cwd root)
  unfolding cwd
  cwd-Keeps args st h =
      moved (change_dir fs root st.files st.session.current_dir (first_or_empty args))
        (change_dir-Inside fs root Low P u g st.files st.session.current_dir (first_or_empty args)
          h.0.current)
        st h

  stepped_up :
      (x : FilePath × Result) → Inside root x.0 → (st : State fs) → Good st → Good (with_dir x st)
  stepped_up (dir, r) i st (p, rest) = (record { current = i; source = p.source }, rest)

  pub cdup-Keeps : Keeps (cdup root)
  unfolding cdup
  cdup-Keeps args st h =
      stepped_up (change_to_parent fs root st.files st.session.current_dir)
        (change_to_parent-Inside fs root Low P u g st.files st.session.current_dir h.0.current) st h

  changed : (x : W × Result) → P x.0 → (st : State fs) → Good st → Good (with_files x st)
  changed (files, r) k st (p, (l, (c, (w, old)))) = (p, (l, (c, (w, k))))

  changed_or_threw :
      (x : W × Option Result) → P x.0 → (st : State fs) → Good st → Good (files_or_throw x st)
  changed_or_threw (files, none) k st (p, (l, (c, (w, old)))) = (p, (l, (c, (w, k))))
  changed_or_threw (files, some r) k st (p, (l, (c, (w, old)))) = (p, (l, (c, (w, k))))

  kept : (st : State fs) → Good st → P st.files
  kept st (p, (l, (c, (w, k)))) = k

  pub mkd-Keeps : Keeps (mkd root)
  unfolding mkd
  mkd-Keeps args st h =
      changed_or_threw (make_dir fs root st.session.current_dir (first_or_empty args) st.files)
        (make_dir-keeps fs root Low P u g st.session.current_dir (first_or_empty args) st.files
          (kept st h))
        st h

  pub rmd-Keeps : Keeps (rmd root)
  unfolding rmd
  rmd-Keeps args st h =
      changed_or_threw (remove_dir fs root st.session.current_dir (first_or_empty args) st.files)
        (remove_dir-keeps fs root Low P u g st.session.current_dir (first_or_empty args) st.files
          (kept st h))
        st h

  pub dele-Keeps : Keeps (dele root)
  unfolding dele
  dele-Keeps args st h =
      changed (delete_file fs root st.session.current_dir (first_or_empty args) st.files)
        (delete_file-keeps fs root Low P u g st.session.current_dir (first_or_empty args) st.files
          (kept st h))
        st h

  shown :
      (names_only : Bool) (l : Listing) (st : State fs)
      → Good st
      → Good (show_listing root names_only l st)
  shown names_only list_threw st h = h
  shown names_only not_listed st h = h
  shown names_only (listed es) st h = h

  pub list_command-Keeps :
      (names_only : Bool) (usage : Text) → Keeps (list_command root names_only usage)
  unfolding list_command
  list_command-Keeps names_only usage args st h = if_rule Good (has_more args) _ _ h (
      shown names_only (list_dir fs root st.files st.session.current_dir (first_or_empty args)) st
        h)

  pub stat-Keeps : Keeps (stat root)
  unfolding stat
  stat-Keeps [] st h = h
  stat-Keeps (target ∷ args) st h = when_some_rule Good (metadata_of root st target) _ _ h λ m e. h

  file_fact-Keeps :
      (show : PathMetadata → Text) (failure : Text) → Keeps (file_fact root show failure)
  file_fact-Keeps show failure [] st h = h
  file_fact-Keeps show failure (target ∷ args) st h =
      when_some_rule Good (metadata_of root st target) _ _ h
        λ m e. if_rule Good m.is_directory _ _ h h

  pub size-Keeps : Keeps (size root)
  unfolding size
  size-Keeps args st h = file_fact-Keeps _ _ args st h

  pub mdtm-Keeps : Keeps (mdtm root)
  unfolding mdtm
  mdtm-Keeps args st h = file_fact-Keeps _ _ args st h

  renaming :
      (x : FilePath × Result)
      → (x.1.is_ok ≡ true → Inside root x.0)
      → (st : State fs) → Good st
      → Good (with_source root x st)
  renaming (source, r) i st (p, rest) = (record { current = p.current; source = i }, rest)

  pub rnfr-Keeps : Keeps (rnfr root)
  unfolding rnfr
  rnfr-Keeps args st h =
      renaming
        (rename_from fs root st.files st.session.current_dir (first_or_empty args)
          st.session.pending_rename_source)
        (rename_from-Inside fs root Low P u g st.files st.session.current_dir (first_or_empty args)
          st.session.pending_rename_source)
        st h

  -- RNTO, given whether a file to rename is pending.
  renamed :
      (pending : Bool) (args : List Text) (st : State fs)
      → Good (record st { session = record st.session { has_pending_rename = pending } })
      → Good (
          rnto root args
            (record st { session = record st.session { has_pending_rename = pending } }))
  unfolding rnto
  renamed false args st h = h
  renamed true args st (p, rest) =
      changed
        (rename_to fs root st.session.current_dir st.session.pending_rename_source
          (first_or_empty args) st.files)
        (rename_to-keeps fs root Low P u g st.session.current_dir st.session.pending_rename_source
          (first_or_empty args) st.files (p.source refl) rest.1.1.1)
        (record st { session = record st.session { has_pending_rename = false } })
        (record { current = p.current; source = λ e. cc e }, rest)

  pub rnto-Keeps : Keeps (rnto root)
  unfolding rnto
  rnto-Keeps args st h = renamed st.session.has_pending_rename args st h

  hash_at-Good : (p : FilePath) (st : State fs) → Good st → Good (hash_at root p st)
  hash_at-Good p st h =
      hashed_by (fs.exists st.files p).1 (not (fs.exists st.files p).0)
        (is_empty (fs.hash_file st.files p))
    where
      hashed_by :
          (t m e : Bool)
          → Good (
              if t
              then emit threw st
              else if m
              then reply action_not_taken (codes "File not found.") st
              else if e
              then reply action_not_taken (codes "Hash computation failed.") st
              else reply file_status (codes "SHA-256 " ++ fs.hash_file st.files p) st)
      hashed_by true m e = h
      hashed_by false true e = h
      hashed_by false false true = h
      hashed_by false false false = h

  pub hash-Keeps : Keeps (hash root)
  unfolding hash
  hash-Keeps [] st h = h
  hash-Keeps (target ∷ args) st h =
      when_some_rule Good (resolve fs root st.files st.session.current_dir target) _ _ h
        λ p e. hash_at-Good p st h
