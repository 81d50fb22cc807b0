-- ===== src/FileSystem/Quiet.antt =====
-- The operations of the directory service throw only where a query of the file system has an error.
use socket_programming.Base.{
  ◌≡◌, refl, sym, ◌∙◌, ap, Bool, true, false, not, ◌||◌, List, [], ◌∷◌, Option, none, some,
  if◌then◌else◌,
}
use mathlib.Core.Option.{some-ne-none}
use socket_programming.Text.{Text}
use socket_programming.FileSystem.{FilePath, FileSystem}
use socket_programming.FileSystem.Resolver.{resolve}
use socket_programming.FileSystem.Directory.{
  Result, Listing, listed, not_listed, list_threw, DirEntryInfo, when_some, or_throw, path_eq,
  is_existing_directory, print_working_dir, change_dir, make_dir, remove_dir, entry_of, with_entry,
  append_entries, list_dir,
}
use socket_programming.FileSystem.Guarded.{when_some_rule, test_rule}

-- The queries that are asked without a `std::error_code` report no error.
pub record Quiet (fs : FileSystem) : Type 0 where
  pub exists_ok : (w : fs.W) (p : FilePath) → (fs.exists w p).1 ≡ false
  pub directory_ok : (w : fs.W) (p : FilePath) → (fs.is_directory w p).1 ≡ false
  pub relative_ok : (w : fs.W) (p base : FilePath) → ¬ (fs.relative_string w p base ≡ none)
  pub entries_ok :
      (w : fs.W) (p : FilePath) (x : List FilePath × Bool) → fs.entries w p ≡ some x → x.1 ≡ false

given {ℓ} : {A : Type ℓ} (a : A) → ¬ (some a ≡ none)
given a e = some-ne-none a e

not_threw : Listing → Bool
not_threw list_threw = false
not_threw (listed es) = true
not_threw not_listed = true

module _ (fs : FileSystem) (root : FilePath) (q : Quiet fs) where
  open fs use {W}

  or_throw_rule :
      {B : Type 0} (P : B → Type 0) (x : Bool × Bool) (y : B) (rest : Bool → B)
      → x.1 ≡ false
      → ((a : Bool) → P (rest a))
      → P (when_some (or_throw fs root x) y rest)
  or_throw_rule P (value, true) y rest e go = cc e
  or_throw_rule P (value, false) y rest e go = go value

  existing_rule :
      {B : Type 0} (P : B → Type 0) (w : W) (p : FilePath) (y : B) (rest : Bool → B)
      → ((a : Bool) → P (rest a))
      → P (when_some (is_existing_directory fs root w p) y rest)
  existing_rule P w p y rest go =
      or_throw_rule (λ o. P (when_some o y rest)) (fs.exists w p) none
        (λ found. if found then or_throw fs root (fs.is_directory w p) else some false)
        (q.exists_ok w p) at_found
    where
      at_found :
          (found : Bool)
          → P (
              when_some
                (if found then or_throw fs root (fs.is_directory w p) else some false)
                y
                rest)
      at_found true = or_throw_rule P (fs.is_directory w p) y rest (q.directory_ok w p) go
      at_found false = go false

  pub print_working_dir-some :
      (w : W) (current_dir : FilePath) → ¬ (print_working_dir fs root w current_dir ≡ none)
  unfolding print_working_dir
  print_working_dir-some w current_dir =
      relative (fs.relative_string w current_dir root) (q.relative_ok w current_dir root) _
    where
      relative :
          (o : Option Text)
          → ¬ (o ≡ none)
          → (rest : Text → Result) → ¬ (when_some o none (λ t. some (rest t)) ≡ none)
      relative none h rest e = h refl
      relative (some t) h rest e = given (rest t) e

  abbrev Done : {A : Type 0} → A × Option Result → Type 0
  Done x = ¬ (x.1 ≡ none)

  pub change_dir-some :
      (w : W) (current_dir : FilePath) (target : Text)
      → ¬ ((change_dir fs root w current_dir target).1 ≡ none)
  unfolding change_dir
  change_dir-some w current_dir target =
      when_some_rule Done (resolve fs root w current_dir target) _ _ (given _) λ p e.
        existing_rule Done w p _ _
          λ is_dir. test_rule Done (not is_dir) _ _ (λ h. given _) (λ h. given _)

  pub make_dir-some :
      (current_dir : FilePath) (name : Text) (w : W)
      → ¬ ((make_dir fs root current_dir name w).1 ≡ none)
  unfolding make_dir
  make_dir-some current_dir name w =
      when_some_rule Done (resolve fs root w current_dir name) _ _ (given _) λ p e.
        or_throw_rule Done (fs.exists w p) _ _ (q.exists_ok w p)
          λ found. test_rule Done found _ _ (λ h. given _) (λ h. given _)

  pub remove_dir-some :
      (current_dir : FilePath) (name : Text) (w : W)
      → ¬ ((remove_dir fs root current_dir name w).1 ≡ none)
  unfolding remove_dir
  remove_dir-some current_dir name w =
      when_some_rule Done (resolve fs root w current_dir name) _ _ (given _) λ p e.
        existing_rule Done w p _ _ λ is_dir.
          test_rule Done (not is_dir) _ _ (λ h. given _)
            λ h. test_rule Done (path_eq p root) _ _ (λ k. given _) (λ k. given _)

  abbrev Calm : Listing → Type 0
  Calm l = not_threw l ≡ true

  not_listed-Calm : Calm not_listed
  unfolding not_threw
  not_listed-Calm = refl

  listed-Calm : (es : List DirEntryInfo) → Calm (listed es)
  unfolding not_threw
  listed-Calm es = refl

  with_entry-Calm : (o : Option DirEntryInfo) (l : Listing) → Calm l → Calm (with_entry fs root o l)
  unfolding not_threw
  with_entry-Calm none l h = refl
  with_entry-Calm (some e) (listed es) h = refl
  with_entry-Calm (some e) not_listed h = refl
  with_entry-Calm (some e) list_threw h = h

  append_entries-Calm :
      (w : W) (throws : Bool) (ps : List FilePath)
      → throws ≡ false
      → Calm (append_entries fs root w throws ps)
  append_entries-Calm w true [] h = cc h
  append_entries-Calm w false [] h = listed-Calm []
  append_entries-Calm w throws (p ∷ ps) h =
      with_entry-Calm (entry_of fs root w p) (append_entries fs root w throws ps)
        (append_entries-Calm w throws ps h)

  list_dir-Calm :
      (w : W) (current_dir : FilePath) (target : Text)
      → Calm (list_dir fs root w current_dir target)
  unfolding list_dir
  list_dir-Calm w current_dir target =
      when_some_rule Calm (resolve fs root w current_dir target) _ _ not_listed-Calm λ p e.
        branch (not (fs.exists w p).0 || (fs.exists w p).1) not_listed
          (if not (fs.is_directory w p).0
            then (if (fs.is_directory w p).1
                then not_listed
                else with_entry fs root (entry_of fs root w p) (listed []))
            else when_some (fs.entries w p) not_listed
                λ found. append_entries fs root w found.1 found.0)
          not_listed-Calm
          (branch (not (fs.is_directory w p).0)
            (if (fs.is_directory w p).1
              then not_listed
              else with_entry fs root (entry_of fs root w p) (listed []))
            (when_some (fs.entries w p) not_listed
              λ found. append_entries fs root w found.1 found.0)
            (branch (fs.is_directory w p).1 not_listed
              (with_entry fs root (entry_of fs root w p) (listed [])) not_listed-Calm
              (with_entry-Calm (entry_of fs root w p) (listed []) (listed-Calm [])))
            (when_some_rule Calm (fs.entries w p) not_listed
              (λ found. append_entries fs root w found.1 found.0) not_listed-Calm
              λ x found. append_entries-Calm w x.1 x.0 (q.entries_ok w p x found)))
    where
      branch : (t : Bool) (x y : Listing) → Calm x → Calm y → Calm (if t then x else y)
      branch true x y h k = h
      branch false x y h k = k

  pub list_dir-not_threw :
      (w : W) (current_dir : FilePath) (target : Text)
      → ¬ (list_dir fs root w current_dir target ≡ list_threw)
  unfolding not_threw
  list_dir-not_threw w current_dir target e =
      clash (sym (list_dir-Calm w current_dir target) ∙ ap not_threw e)
    where
      clash : ¬ (true ≡ false)
      clash e = cc e
