-- ===== src/Tests/ControlData.antt =====
-- A file system for the runs of the control channel: its state is the list of the paths that were
-- touched, and what was touched exists, as does the root, a directory.
use socket_programming.Base.{
  ◌+◌, ◌/◌, ◌%◌, Bool, true, false, List, [], ◌∷◌, ◌++◌, none, some, if◌then◌else◌, ◌||◌, ◌&&◌, not,
  All,
}
use mathlib.Core.Path.{◌≡◌, refl, ap, subst, sym}
use mathlib.Core.Option.{some-injective, some-ne-none}
use socket_programming.Text.{Text, codes, text_eq}
use socket_programming.Double.{pos}
use socket_programming.Endpoint.{Endpoint}
use socket_programming.FileSystem.{FilePath, FileSystem, no_elements}
use socket_programming.FileSystem.Resolver.{Inside}
use socket_programming.FileSystem.Directory.{path_eq}
use socket_programming.FileSystem.Guarded.{Untouched, Below, Rooted}
use socket_programming.Control.Parser.{ParsedCommand}
use socket_programming.Control.State.{Answers}

abbrev pub is_touched : FilePath → List FilePath → Bool
is_touched p [] = false
is_touched p (q ∷ w) = path_eq p q || is_touched p w

abbrev last : FilePath → Text
last [] = []
last (a ∷ []) = a
last (a ∷ b ∷ p) = last (b ∷ p)

-- `.` and `..` are resolved; a name is put behind the path.
abbrev pub parent : FilePath → FilePath
parent [] = []
parent (a ∷ []) = []
parent (a ∷ b ∷ p) = a ∷ parent (b ∷ p)

abbrev pub home : FilePath
home = codes "srv" ∷ []

abbrev joined : FilePath → Text → FilePath
joined p t = if text_eq t (codes "..") then parent p else p ++ t ∷ []

-- What is there: the root, and what was touched.
abbrev is_there : FilePath → List FilePath → Bool
is_there p w = path_eq p home || is_touched p w

abbrev pub log : FileSystem
log = record {
  W = List FilePath;
  join = joined;
  filename = last;
  weakly_canonical = λ w p. some p;
  relative_string = λ w p base. some [];
  exists = λ w p. (is_there p w, false);
  is_directory = λ w p. (path_eq p home, false);
  is_regular_file = λ w p. (is_touched p w && not (path_eq p home), false);
  file_size = λ w p. (7, false);
  last_write_time = λ w p. (0, false);
  status = λ w p. none;
  entries = λ w p. none;
  hash_file = λ w p. codes "abc";
  create_directories = λ p w. (p ∷ w, true);
  remove = λ p w. (p ∷ w, true);
  rename = λ p q w. (p ∷ q ∷ w, true);
  parent_path = parent;
  get_temp_file_name = λ p w. ((p ++ codes "t" ∷ []) ∷ w, some (p ++ codes "t" ∷ []));
  create_new = λ p w. (p ∷ w, not (is_there p w), is_there p w);
  truncate = λ p w. (p ∷ w, true);
  copy_into = λ p q w. (q ∷ w, true);
  close_stream = λ p w. (w, true);
  to_string = λ n. (48 + n / 100) ∷ (48 + n / 10 % 10) ∷ (48 + n % 10) ∷ [];
  format_time = λ n. [];
}

abbrev pub TouchedInside : List FilePath → Type 0
TouchedInside w = All (Inside home) w

-- The directory of a path strictly below the root is at the root or below it.
parent-Inside : (p : FilePath) → Below home p → Inside home (parent p)
parent-Inside p (([], e), apart) = absurd (apart e)
parent-Inside p ((a ∷ rest, e), apart) = (parent (a ∷ rest), ap parent e)

beside-Inside : (p : FilePath) → Below home p → Inside home (parent p ++ codes "t" ∷ [])
beside-Inside p i =
    let (rest, e) = parent-Inside p i in
    (rest ++ codes "t" ∷ [], ap (λ (q : FilePath). q ++ codes "t" ∷ []) e)

-- The temporary file beside a path, with the test of its directory as it is.
temporary-Inside :
    (b : Bool) (p : FilePath) (w : List FilePath)
    → Below home p
    → TouchedInside w
    → TouchedInside (if b then (w, none) else log.get_temp_file_name (parent p) w).0
temporary-Inside true p w i k = k
temporary-Inside false p w i k = (beside-Inside p i, k)

pub named-Inside :
    (b : Bool) (p q : FilePath) (w : List FilePath)
    → Below home p
    → (if b then (w, none) else log.get_temp_file_name (parent p) w).1 ≡ some q
    → Inside home q
named-Inside true p q w i e = absurd (some-ne-none q (sym e))
named-Inside false p q w i e =
    subst (Inside home) (some-injective (parent p ++ codes "t" ∷ []) q e) (beside-Inside p i)

pub log-Untouched : Untouched log home (Below home) TouchedInside
log-Untouched = record {
  create = λ p w i k. (i, k);
  remove = λ p w i k. (i.0, k);
  rename = λ p q w i j k. (i, (j, k));
  create_new = λ p w i k. (i, k);
  temporary = λ p w i k. temporary-Inside (no_elements (parent p)) p w i k;
  unstage = λ p q w w' i e k. (named-Inside (no_elements (parent p)) p q w i e, k);
}

pub log-Rooted : Rooted log home TouchedInside
log-Rooted = record {
  is_there = λ w k. refl;
  is_dir = λ w k. refl;
  is_no_file = λ w k. and_false (is_touched home w);
  is_old = λ w k. refl;
}
  where
    and_false : (b : Bool) → (b && false) ≡ false
    and_false true = refl
    and_false false = refl

abbrev pub client : Endpoint
client = record { sin_family = 2; sin_port = 5000; s_addr = 16777343 }

-- The answers to a PORT of 127.0.0.1, port 5000, and to the start of a worker.
abbrev pub ready : Answers log
ready = record {
  opened_port = some (77, 6000);
  local_ip = 2130706433;
  scanned = (pos 127 ∷ pos 0 ∷ pos 0 ∷ pos 1 ∷ pos 19 ∷ pos 136 ∷ [], 16);
  transport_valid = true;
  thread_started = true;
  worker_files = λ w. w;
}

abbrev pub command : Text → List Text → ParsedCommand
command name args = record { raw_command = name; type = name; args = args }
