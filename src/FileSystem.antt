-- ===== src/FileSystem.antt =====
-- What the server asks of the file system and of the standard library: the code of these is not the
-- repository's, so they are a parameter of the model. Queries read a state `W`, operations change it.
-- Beside its value a query gives whether there was an error, which a call without a `std::error_code`
-- throws; where there is no value, the call throws.
pub mod Resolver
pub mod Directory
pub mod Guarded
pub mod Confined
pub mod Quiet
use socket_programming.Base.{ℕ, Bool, true, false, List, [], ◌∷◌, Option, none, some, if◌then◌else◌}
use socket_programming.Text.{Text}

-- A `std::filesystem::path`, as the elements that its iterator gives.
abbrev pub FilePath : Type 0
FilePath = List Text

pub data FileType : Type 0 where
  directory regular symlink block character fifo socket unknown : FileType

pub record FileSystem : Type 1 where
  pub W : Type 0
  pub join : FilePath → Text → FilePath  -- `path / string`
  pub filename : FilePath → Text
  pub weakly_canonical : W → FilePath → Option FilePath
  pub relative_string : W → FilePath → FilePath → Option Text  -- `fs::relative(p, base).generic_string()`
  pub exists : W → FilePath → Bool × Bool
  pub is_directory : W → FilePath → Bool × Bool
  pub is_regular_file : W → FilePath → Bool × Bool
  pub file_size : W → FilePath → ℕ × Bool
  pub last_write_time : W → FilePath → ℕ × Bool
  pub status : W → FilePath → Option (FileType × ℕ)  -- type and permission bits
  -- `directory_iterator`: the entries, and whether the step behind the last of them throws.
  pub entries : W → FilePath → Option (List FilePath × Bool)
  pub hash_file : W → FilePath → Text  -- `Sha256Hasher::hashFile`, empty if it fails
  pub create_directories : FilePath → W → W × Bool  -- true: created, with no error
  pub remove : FilePath → W → W × Bool  -- true: removed, with no error
  pub rename : FilePath → FilePath → W → W × Bool  -- true: no error
  pub parent_path : FilePath → FilePath
  pub get_temp_file_name : FilePath → W → W × Option FilePath  -- `GetTempFileNameW`, in a directory
  pub create_new : FilePath → W → W × Bool × Bool  -- `CreateFileW` with CREATE_NEW: created, there already
  pub truncate : FilePath → W → W × Bool  -- a `std::ofstream` opened with `trunc`
  -- A file put behind the bytes of an open stream: true if the stream is still good, which by `operator<<`
  -- asks for a byte at least.
  pub copy_into : FilePath → FilePath → W → W × Bool
  pub close_stream : FilePath → W → W × Bool  -- `flush` and `close`
  pub to_string : ℕ → Text  -- `std::to_string`
  pub format_time : ℕ → Text  -- `formatMdtmTimestamp`

-- `createSiblingTemporaryPath` of server/src/control/CommandDispatcher.cpp: `none` is the return value
-- false.
abbrev pub no_elements : FilePath → Bool
no_elements [] = true
no_elements (a ∷ p) = false

abbrev pub create_sibling_temporary_path :
    (fs : FileSystem) → FilePath → fs.W → fs.W × Option FilePath
create_sibling_temporary_path fs destination w =
    if no_elements (fs.parent_path destination)
    then (w, none)
    else fs.get_temp_file_name (fs.parent_path destination) w
