-- ===== src/FileSystem/Guarded.antt =====
-- What it means that nothing outside of the server's root is touched, and that the tests of the commands
-- (server/src/filesystem/DirectoryService.cpp, server/src/control/CommandDispatcher.cpp) keep the root
-- itself out.
use socket_programming.Base.{
  ◌≡◌, refl, subst, ap, Bool, true, false, not, ◌&&◌, [], ◌∷◌, if◌then◌else◌, Option, none, some,
  arith,
}
use socket_programming.Text.{text_eq_refl}
use socket_programming.FileSystem.{FilePath, FileSystem, create_sibling_temporary_path}
use socket_programming.FileSystem.Resolver.{Inside}
use socket_programming.FileSystem.Directory.{path_eq, when_some}

-- To show a fact of `when_some`: it holds where there is nothing, and for whatever there is.
pub when_some_rule {ℓ κ} :
    {A : Type ℓ} {B : Type κ} (P : B → Type 0) (o : Option A) (x : B) (rest : A → B)
    → P x
    → ((a : A) → o ≡ some a → P (rest a))
    → P (when_some o x rest)
when_some_rule P none x rest h go = h
when_some_rule P (some a) x rest h go = go a refl

-- To show a fact of a test: it holds in each branch, given the test's value.
pub test_rule {ℓ} :
    {B : Type ℓ} (P : B → Type 0) (b : Bool) (x y : B)
    → (b ≡ true → P x)
    → (b ≡ false → P y)
    → P (if b then x else y)
test_rule P true x y hx hy = hx refl
test_rule P false x y hx hy = hy refl

-- At the root or below it, and strictly below it.
abbrev pub Below : FilePath → FilePath → Type 0
Below root p = Inside root p × ¬ (p ≡ root)

-- A property of the file system's state that no operation at or below the root takes away, nor the removal
-- of what satisfies `Low`, nor a temporary file beside it.
pub record Untouched (fs : FileSystem) (root : FilePath) (Low : FilePath → Type 0)
    (P : fs.W → Type 0) : Type 0 where
  pub create : (p : FilePath) (w : fs.W) → Inside root p → P w → P (fs.create_directories p w).0
  pub remove : (p : FilePath) (w : fs.W) → Low p → P w → P (fs.remove p w).0
  pub rename :
      (p q : FilePath) (w : fs.W) → Inside root p → Inside root q → P w → P (fs.rename p q w).0
  pub create_new : (p : FilePath) (w : fs.W) → Inside root p → P w → P (fs.create_new p w).0
  pub temporary :
      (p : FilePath) (w : fs.W) → Low p → P w → P (create_sibling_temporary_path fs p w).0
  pub unstage :
      (p q : FilePath) (w w' : fs.W)
      → Low p
      → (create_sibling_temporary_path fs p w).1 ≡ some q
      → P w'
      → P (fs.remove q w').0

-- The tests that the commands make are enough for `Low`.
pub record Guarded (fs : FileSystem) (root : FilePath) (Low : FilePath → Type 0) (P : fs.W → Type 0)
    : Type 0 where
  pub inside : (p : FilePath) → Low p → Inside root p
  pub other : (p : FilePath) → Inside root p → path_eq p root ≡ false → Low p
  pub no_directory :
      (p : FilePath) (w : fs.W) → Inside root p → P w → (fs.is_directory w p).0 ≡ false → Low p
  pub no_other_kind :
      (p : FilePath) (w : fs.W)
      → Inside root p
      → P w
      → ((fs.exists w p).0 && not (fs.is_regular_file w p).0) ≡ false
      → Low p
  pub created :
      (p : FilePath) (w : fs.W) → Inside root p → P w → (fs.create_new p w).1 ≡ true → Low p

-- As long as `P` holds, the root is a directory that is there.
pub record Rooted (fs : FileSystem) (root : FilePath) (P : fs.W → Type 0) : Type 0 where
  pub is_there : (w : fs.W) → P w → (fs.exists w root).0 ≡ true
  pub is_dir : (w : fs.W) → P w → (fs.is_directory w root).0 ≡ true
  pub is_no_file : (w : fs.W) → P w → (fs.is_regular_file w root).0 ≡ false
  pub is_old : (w : fs.W) → P w → (fs.create_new root w).1 ≡ false

path_eq_refl : (p : FilePath) → path_eq p p ≡ true
path_eq_refl [] = refl
path_eq_refl (a ∷ p) = ground (arith, text_eq_refl a, path_eq_refl p)

not_both : (b : Bool) → b ≡ true → ¬ (b ≡ false)
not_both true e f = cc f
not_both false e f = cc e

guard_holds : {a b : Bool} → a ≡ true → b ≡ false → (a && not b) ≡ true
guard_holds h k = ground (arith, h, k)

-- The root has none of the values that the tests ask for.
pub Rooted-Guarded :
    (fs : FileSystem) (root : FilePath) (P : fs.W → Type 0)
    → Rooted fs root P
    → Guarded fs root (Below root) P
Rooted-Guarded fs root P r = record {
  inside = λ p i. i.0;
  other = λ p i e. (i, apart p (λ q. path_eq q root) e (path_eq_refl root));
  no_directory = λ p w i k e. (i, apart p (λ q. (fs.is_directory w q).0) e (r.is_dir w k));
  no_other_kind = λ p w i k e. (
    i,
    apart p (λ q. (fs.exists w q).0 && not (fs.is_regular_file w q).0) e
        (guard_holds (r.is_there w k) (r.is_no_file w k)),
  );
  created =
      λ p w i k e. (i, apart p (λ q. not (fs.create_new q w).1) (ap not e) (ap not (r.is_old w k)));
}
  where
    -- A test tells a path from the root.
    apart :
        (p : FilePath) (test : FilePath → Bool) → test p ≡ false → test root ≡ true → ¬ (p ≡ root)
    apart p test e at_root same = not_both (test root) at_root (subst (λ q. test q ≡ false) same e)
