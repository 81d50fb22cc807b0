-- ===== src/FileSystem/Confined.antt =====
-- The directory service touches nothing outside of the server's root.
use socket_programming.Base.{
  ◌≡◌, refl, sym, ◌∙◌, ap, Bool, true, false, not, [], if◌then◌else◌, Option, none, some, arith,
  Option-cases, Bool-cases, inl, inr,
}
use mathlib.Core.Option.{some-injective, some-ne-none}
use socket_programming.Text.{Text, codes}
use socket_programming.FileSystem.{FilePath, FileSystem}
use socket_programming.FileSystem.Resolver.{Inside, resolve, resolve-Inside}
use socket_programming.FileSystem.Directory.{
  Result, PathMetadata, path_eq, or_throw, is_existing_directory, make_dir, remove_dir, change_dir,
  change_to_parent, get_metadata, delete_file, resolved_or, rename_from, rename_to,
}
use socket_programming.FileSystem.Guarded.{when_some_rule, test_rule, Untouched, Guarded}

given_at_last {ℓ} :
    {A : Type ℓ} (a b : Bool) (x y : A)
    → (if a then none else if b then none else some x) ≡ some y
    → x ≡ y
given_at_last true b x y e = absurd (some-ne-none y (sym e))
given_at_last false true x y e = absurd (some-ne-none y (sym e))
given_at_last false false x y e = some-injective x y e

module _ (fs : FileSystem) (root : FilePath) (Low : FilePath → Type 0) (P : fs.W → Type 0)
    (u : Untouched fs root Low P) (g : Guarded fs root Low P) where
  open fs use {W}

  abbrev Kept : {B : Type 0} → W × B → Type 0
  Kept x = P x.0

  abbrev Stays : {B : Type 0} → FilePath × B → Type 0
  Stays x = Inside root x.0

  pub make_dir-keeps :
      (current_dir : FilePath) (name : Text) (w : W)
      → P w
      → P (make_dir fs root current_dir name w).0
  unfolding make_dir
  make_dir-keeps current_dir name w h =
      when_some_rule Kept (resolve fs root w current_dir name) _ _ h λ p e.
        when_some_rule Kept (or_throw fs root (fs.exists w p)) _ _ h λ found f.
          ground (arith, h, u.create p w (resolve-Inside fs root w current_dir name p e) h)

  pub remove_dir-keeps :
      (current_dir : FilePath) (name : Text) (w : W)
      → P w
      → P (remove_dir fs root current_dir name w).0
  unfolding remove_dir
  remove_dir-keeps current_dir name w h =
      when_some_rule Kept (resolve fs root w current_dir name) _ _ h λ p e.
        when_some_rule Kept (is_existing_directory fs root w p) _ _ h λ is_dir f.
          test_rule Kept (not is_dir) _ _ (λ missing. h)
            λ there.
              test_rule Kept (path_eq p root) _ _ (λ same. h)
                λ below.
                  u.remove p w (g.other p (resolve-Inside fs root w current_dir name p e) below) h

  pub resolved_or-Inside :
      (old : FilePath) (o : Option FilePath)
      → Inside root old
      → ((p : FilePath) → o ≡ some p → Inside root p)
      → Inside root (resolved_or fs root old o)
  resolved_or-Inside old none h go = h
  resolved_or-Inside old (some p) h go = go p refl

  -- What has metadata resolves.
  metadata-resolves :
      (w : W) (current_dir : FilePath) (name : Text) (old : FilePath) (m : PathMetadata)
      → get_metadata fs root w current_dir name ≡ some m
      → Inside root (resolved_or fs root old (resolve fs root w current_dir name))
  unfolding get_metadata
  metadata-resolves w current_dir name old m =
      elim (Option-cases (resolve fs root w current_dir name)) [
        | inl e ↦ rw e λ found. absurd (some-ne-none m (sym found))
        | inr (p, e) ↦ rw e λ found. resolve-Inside fs root w current_dir name p e
      ]

  metadata-kind :
      (w : W) (current_dir : FilePath) (name : Text) (m : PathMetadata)
      → get_metadata fs root w current_dir name ≡ some m
      → (fs.is_directory w (resolved_or fs root [] (resolve fs root w current_dir name))).0
        ≡ m.is_directory
  unfolding get_metadata
  metadata-kind w current_dir name m = elim (Option-cases (resolve fs root w current_dir name)) [
    | inl e ↦ rw e λ found. absurd (some-ne-none m (sym found))
    | inr (p, e) ↦
        rw e λ found. ap (λ (x : PathMetadata). x.is_directory) (given_at_last _ _ _ _ found)
  ]

  pub delete_file-keeps :
      (current_dir : FilePath) (name : Text) (w : W)
      → P w
      → P (delete_file fs root current_dir name w).0
  unfolding delete_file
  delete_file-keeps current_dir name w h =
      when_some_rule Kept (get_metadata fs root w current_dir name) _ _ h λ m e.
        test_rule Kept m.is_directory _ _ (λ is_dir. h)
          λ no_dir.
            u.remove (resolved_or fs root [] (resolve fs root w current_dir name)) w
              (g.no_directory (resolved_or fs root [] (resolve fs root w current_dir name)) w
                (metadata-resolves w current_dir name [] m e) h
                (metadata-kind w current_dir name m e ∙ no_dir))
              h

  pub rename_to-keeps :
      (current_dir pending : FilePath) (name : Text) (w : W)
      → Inside root pending
      → P w
      → P (rename_to fs root current_dir pending name w).0
  unfolding rename_to
  rename_to-keeps current_dir pending name w i h =
      when_some_rule Kept (resolve fs root w current_dir name) _ _ h
        λ p e. u.rename pending p w i (resolve-Inside fs root w current_dir name p e) h

  -- A path to rename that the service has accepted lies below the root.
  pub rename_from-Inside :
      (w : W) (current_dir : FilePath) (name : Text) (pending : FilePath)
      → (rename_from fs root w current_dir name pending).1.is_ok ≡ true
      → Inside root (rename_from fs root w current_dir name pending).0
  unfolding rename_from
  rename_from-Inside w current_dir name pending =
      when_some_rule (λ (x : FilePath × Result). x.1.is_ok ≡ true → Inside root x.0)
        (get_metadata fs root w current_dir name) _ _ (λ refused_. cc refused_)
        λ m e ok. metadata-resolves w current_dir name pending m e

  pub change_dir-Inside :
      (w : W) (current_dir : FilePath) (target : Text)
      → Inside root current_dir
      → Inside root (change_dir fs root w current_dir target).0
  unfolding change_dir
  change_dir-Inside w current_dir target i =
      when_some_rule Stays (resolve fs root w current_dir target) _ _ i λ p e.
        when_some_rule Stays (is_existing_directory fs root w p) _ _ i λ is_dir f.
          elim (Bool-cases (not is_dir)) [
            | inl missing ↦ rw missing i
            | inr there ↦ rw there (resolve-Inside fs root w current_dir target p e)
          ]

  pub change_to_parent-Inside :
      (w : W) (current_dir : FilePath)
      → Inside root current_dir
      → Inside root (change_to_parent fs root w current_dir).0
  unfolding change_to_parent
  change_to_parent-Inside w current_dir i =
      when_some_rule Stays (resolve fs root w current_dir (codes "..")) _ _ i
        λ p e. resolve-Inside fs root w current_dir (codes "..") p e
