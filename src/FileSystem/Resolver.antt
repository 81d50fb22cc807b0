-- ===== src/FileSystem/Resolver.antt =====
-- server/src/filesystem/PathResolver.cpp: every path of a client is resolved below the server's root.
use socket_programming.Base.{
  ◌≡◌, refl, sym, ap, ◌∙◌, Bool, true, false, [], ◌∷◌, ◌++◌, Option, none, some, if◌then◌else◌,
  Bool-cases, Option-cases, inl, inr,
}
use mathlib.Core.Option.{some-injective, some-ne-none}
use socket_programming.Text.{Text, text_eq, text_eq_sound}
use socket_programming.FileSystem.{FilePath, FileSystem}

-- `std::mismatch`, with an end on both sides: what is left of the first range and of the second.
unfoldable pub mismatch : FilePath → FilePath → FilePath × FilePath
mismatch [] q = ([], q)
mismatch (a ∷ p) [] = (a ∷ p, [])
mismatch (a ∷ p) (b ∷ q) = let rest = mismatch p q in if text_eq a b then rest else (a ∷ p, b ∷ q)

-- `rootIt == rootEnd`
abbrev pub at_end : FilePath → Bool
at_end [] = true
at_end (a ∷ p) = false

-- The path begins with the root.
abbrev pub Inside : FilePath → FilePath → Type 0
Inside root p = (rest : FilePath) × (p ≡ root ++ rest)

unfoldable pub check_root : FilePath → FilePath → Option FilePath
unfolding mismatch
check_root root resolved = if at_end (mismatch root resolved).0 then some resolved else none

module _ (fs : FileSystem) (root : FilePath) where
  open fs use {W}

  -- `resolve`: `none` is the return value false, which leaves the out-parameter alone.
  unfoldable pub resolve : W → FilePath → Text → Option FilePath
  unfolding check_root
  resolve w current_dir user_input = elim (fs.weakly_canonical w (fs.join current_dir user_input)) [
    | none ↦ none
    | some resolved ↦ check_root root resolved
  ]

mismatch-Inside : (p q : FilePath) → at_end (mismatch p q).0 ≡ true → Inside p q
unfolding mismatch
mismatch-Inside [] q e = (q, refl)
mismatch-Inside (a ∷ p) [] e = cc e
mismatch-Inside (a ∷ p) (b ∷ q) e = elim (Bool-cases (text_eq a b)) [
  | inl same ↦
      let r = mismatch-Inside p q (simp same at e) in
      (
        r.0,
        ap (λ (x : Text). x ∷ q) (sym (text_eq_sound a b same)) ∙ ap (λ (l : FilePath). a ∷ l) r.1,
      )
  | inr other ↦ cc (simp other at e)
]

check_root-Inside : (root q p : FilePath) → check_root root q ≡ some p → Inside root p
unfolding check_root
check_root-Inside root q p = elim (Bool-cases (at_end (mismatch root q).0)) [
  | inl e ↦
      rw e λ same. let r = mismatch-Inside root q e in (r.0, sym (some-injective q p same) ∙ r.1)
  | inr e ↦ rw e λ same. absurd (some-ne-none p (sym same))
]

-- Whatever a client writes, from whatever directory: a path that is resolved lies below the root.
pub resolve-Inside :
    (fs : FileSystem) (root : FilePath) (w : fs.W) (current_dir : FilePath) (user_input : Text)
    (p : FilePath)
    → resolve fs root w current_dir user_input ≡ some p
    → Inside root p
unfolding resolve
resolve-Inside fs root w current_dir user_input p =
    elim (Option-cases (fs.weakly_canonical w (fs.join current_dir user_input))) [
      | inl e ↦ rw (e, resolve) λ same. absurd (some-ne-none p (sym same))
      | inr (q, e) ↦ rw (e, resolve) (check_root-Inside root q p)
    ]
