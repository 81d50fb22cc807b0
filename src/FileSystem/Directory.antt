-- ===== src/FileSystem/Directory.antt =====
-- server/src/filesystem/DirectoryService.cpp.
use socket_programming.Base.{
  ℕ, bit_and, Bool, true, false, not, ◌&&◌, ◌||◌, List, [], ◌∷◌, ◌++◌, Option, none, some, ◌==◌,
  if◌then◌else◌,
}
use socket_programming.Text.{Text, codes, text_eq}
use socket_programming.ReplyCode.{
  action_not_taken, action_completed, pathname_created, pending_rnto,
}
use socket_programming.FileSystem.{
  FilePath, FileSystem, FileType, directory, regular, symlink, block, character, fifo, socket,
  unknown,
}
use socket_programming.FileSystem.Resolver.{resolve}

pub record Result : Type 0 where
  pub is_ok : Bool
  pub code : ℕ
  pub message : Text

pub record DirEntryInfo : Type 0 where
  pub format_permissions : Text
  pub name : Text
  pub is_directory : Bool
  pub size_bytes : ℕ

pub record PathMetadata : Type 0 where
  pub is_directory : Bool
  pub size_bytes : ℕ
  pub last_modified : ℕ

abbrev pub good : ℕ → Text → Result
good code message = record { is_ok = true; code = code; message = message }

abbrev pub refused : Text → Result
refused message = record { is_ok = false; code = action_not_taken; message = message }

-- What `listDir` comes to: its entries, the return value false, or an exception.
pub data Listing : Type 0 where
  listed : List DirEntryInfo → Listing
  not_listed list_threw : Listing

-- `if (!resolve(...)) return x`, then the rest.
abbrev pub when_some {ℓ κ} : {A : Type ℓ} {B : Type κ} → Option A → B → (A → B) → B
when_some none x rest = x
when_some (some p) x rest = rest p

-- Paths are equal if their elements are.
abbrev pub path_eq : FilePath → FilePath → Bool
path_eq [] [] = true
path_eq [] (b ∷ q) = false
path_eq (a ∷ p) [] = false
path_eq (a ∷ p) (b ∷ q) = text_eq a b && path_eq p q

abbrev pub type_char : FileType → ℕ
type_char directory = 100
type_char regular = 45
type_char symlink = 108
type_char block = 98
type_char character = 99
type_char fifo = 112
type_char socket = 115
type_char unknown = 45

-- `if ((p & bit) != perms::none) perms_str[i] = c`
abbrev pub permission : ℕ → ℕ → ℕ → ℕ
permission p bit c = if bit_and p bit == 0 then 45 else c

unfoldable pub format_permissions : Option (FileType × ℕ) → Text
format_permissions none = codes "d---------"
format_permissions (some (kind, p)) =
    type_char kind
    ∷ permission p 256 114
    ∷ permission p 128 119
    ∷ permission p 64 120
    ∷ permission p 32 114
    ∷ permission p 16 119
    ∷ permission p 8 120
    ∷ permission p 4 114
    ∷ permission p 2 119
    ∷ permission p 1 120
    ∷ []

module _ (fs : FileSystem) (root : FilePath) where
  open fs use {W, filename}

  abbrev pub quoted : Text → Text → Text
  quoted name rest = 34 ∷ name ++ 34 ∷ rest

  -- A query without a `std::error_code`: `none` is an exception.
  abbrev pub or_throw : Bool × Bool → Option Bool
  or_throw (value, error) = if error then none else some value

  -- `fs::exists(p) && fs::is_directory(p)`, where the second is asked only if the first holds.
  abbrev pub is_existing_directory : W → FilePath → Option Bool
  is_existing_directory w p =
      when_some (or_throw (fs.exists w p)) none
        λ found. if found then or_throw (fs.is_directory w p) else some false

  -- Where there is no result, the operation throws.
  unfoldable pub print_working_dir : W → FilePath → Option Result
  print_working_dir w current_dir =
      when_some (fs.relative_string w current_dir root) none λ relative.
        let display = codes "/" ++ relative in
        let shown = if text_eq display (codes "/.") then codes "/" else display in
        some (good pathname_created (quoted shown (codes " is the current directory.")))

  -- The directory afterwards.
  unfoldable pub change_dir : W → FilePath → Text → FilePath × Option Result
  change_dir w current_dir target =
      when_some (resolve fs root w current_dir target)
        (current_dir, some (refused (codes "Path outside server root.")))
        λ resolved.
          when_some (is_existing_directory w resolved) (current_dir, none)
            λ is_dir.
              if not is_dir then (current_dir, some (refused (codes "Not a directory."))) else (
                resolved,
                some (good action_completed (codes "Directory changed to " ++ filename resolved)),
              )

  unfoldable pub change_to_parent : W → FilePath → FilePath × Result
  change_to_parent w current_dir =
      when_some (resolve fs root w current_dir (codes ".."))
        (current_dir, refused (codes "Already at server root."))
        λ resolved.
          (resolved, good action_completed (codes "Directory changed to " ++ filename resolved))

  -- The answer to an operation that gives a new state and whether it was done.
  abbrev pub with_done : W × Bool → Result → Result → W × Result
  with_done (w, done) yes_result no_result = (w, if done then yes_result else no_result)

  -- An operation that has not thrown.
  abbrev pub not_thrown : W × Result → W × Option Result
  not_thrown (w, r) = (w, some r)

  unfoldable pub make_dir : FilePath → Text → W → W × Option Result
  make_dir current_dir name w =
      when_some (resolve fs root w current_dir name)
        (w, some (refused (codes "Path outside server root.")))
        λ resolved.
          when_some (or_throw (fs.exists w resolved)) (w, none)
            λ found.
              if found
              then (w, some (refused (codes "Already exists.")))
              else not_thrown (
                  with_done (fs.create_directories resolved w)
                    (good pathname_created (quoted (filename resolved) (codes " created")))
                    (refused (codes "Could not create directory.")))

  unfoldable pub remove_dir : FilePath → Text → W → W × Option Result
  remove_dir current_dir name w =
      when_some (resolve fs root w current_dir name)
        (w, some (refused (codes "Path outside server root.")))
        λ resolved.
          when_some (is_existing_directory w resolved) (w, none)
            λ is_dir.
              if not is_dir
              then (w, some (refused (codes "Not a directory")))
              else if path_eq resolved root
              then (w, some (refused (codes "Cannot remove server root")))
              else not_thrown (
                  with_done (fs.remove resolved w)
                    (good action_completed (codes "Directory removed"))
                    (refused (codes "Directory not empty or in use")))

  -- `appendEntry`
  abbrev pub entry_of : W → FilePath → Option DirEntryInfo
  entry_of w path =
      let (is_dir, error) = fs.is_directory w path in
      let (size, size_error) = if is_dir then (0, false) else fs.file_size w path in
      if error
      then none
      else if size_error
      then none
      else some (record {
        format_permissions = format_permissions (fs.status w path);
        name = filename path;
        is_directory = is_dir;
        size_bytes = size;
      })

  -- The entries appended so far are in front of the others; one that fails ends the loop.
  abbrev pub with_entry : Option DirEntryInfo → Listing → Listing
  with_entry none rest = not_listed
  with_entry (some e) (listed es) = listed (e ∷ es)
  with_entry (some e) not_listed = not_listed
  with_entry (some e) list_threw = list_threw

  -- The loop, over the entries and what the iterator does behind them.
  abbrev pub append_entries : W → Bool → List FilePath → Listing
  append_entries w throws [] = if throws then list_threw else listed []
  append_entries w throws (p ∷ ps) = with_entry (entry_of w p) (append_entries w throws ps)

  unfoldable pub list_dir : W → FilePath → Text → Listing
  list_dir w current_dir target =
      when_some (resolve fs root w current_dir target) not_listed λ resolved.
        let (found, error) = fs.exists w resolved in
        let (is_dir, dir_error) = fs.is_directory w resolved in
        if not found || error
        then not_listed
        else if not is_dir
        then (if dir_error then not_listed else with_entry (entry_of w resolved) (listed []))
        else when_some (fs.entries w resolved) not_listed
            λ all_entries. append_entries w all_entries.1 all_entries.0

  -- `getMetadata`: of the errors of the last three queries, the code looks at the last one.
  unfoldable pub get_metadata : W → FilePath → Text → Option PathMetadata
  get_metadata w current_dir target =
      when_some (resolve fs root w current_dir target) none λ resolved.
        let (found, error) = fs.exists w resolved in
        let is_dir = (fs.is_directory w resolved).0 in
        let (modified, time_error) = fs.last_write_time w resolved in
        if not found || error
        then none
        else if time_error
        then none
        else some (record {
          is_directory = is_dir;
          size_bytes = if is_dir then 0 else (fs.file_size w resolved).0;
          last_modified = modified;
        })

  -- An out-parameter of `resolve`: it keeps its value where `resolve` returns false.
  abbrev pub resolved_or : FilePath → Option FilePath → FilePath
  resolved_or old none = old
  resolved_or old (some p) = p

  unfoldable pub delete_file : FilePath → Text → W → W × Result
  unfolding get_metadata
  delete_file current_dir name w =
      when_some (get_metadata w current_dir name) (w, refused (codes "File not found"))
        λ meta.
          if meta.is_directory
          then (w, refused (codes "Cannot DELE a directory; use RMD"))
          else with_done (fs.remove (resolved_or [] (resolve fs root w current_dir name)) w)
              (good action_completed (codes "File deleted"))
              (refused (codes "Could not delete file"))

  -- The path to rename afterwards.
  unfoldable pub rename_from : W → FilePath → Text → FilePath → FilePath × Result
  unfolding get_metadata
  rename_from w current_dir old_name pending =
      when_some (get_metadata w current_dir old_name) (pending, refused (codes "File not found"))
        λ meta. (
          resolved_or pending (resolve fs root w current_dir old_name),
          good pending_rnto (codes "Requested file action pending further information (RNTO)"),
        )

  unfoldable pub rename_to : FilePath → FilePath → Text → W → W × Result
  rename_to current_dir pending new_name w =
      when_some (resolve fs root w current_dir new_name)
        (w, refused (codes "Destination path outside server root"))
        λ resolved.
          with_done (fs.rename pending resolved w)
            (good action_completed (codes "Rename successful")) (refused (codes "Rename failed."))
