-- ===== src/Text.antt =====
-- The texts of the control channel (`std::string`): lists of byte values. A literal of the source is
-- `codes "..."`.
use Prim.Native.Char.{code}
use Prim.Native.String.{String}
use socket_programming.Base.{
  ℕ, ◌-◌, ◌≡◌, refl, ap₂, Bool, true, false, ◌&&◌, List, [], ◌∷◌, map, leb, ◌==◌, if◌then◌else◌,
  arith,
}

abbrev pub Text : Type 0
Text = List ℕ

abbrev pub codes : String → Text
codes String.[] = []
codes (String.◌∷◌ c s) = code c ∷ codes s

-- `operator==`
abbrev pub text_eq : Text → Text → Bool
text_eq [] [] = true
text_eq [] (d ∷ t) = false
text_eq (c ∷ s) [] = false
text_eq (c ∷ s) (d ∷ t) = c == d && text_eq s t

-- `empty`
abbrev pub is_empty : Text → Bool
is_empty [] = true
is_empty (c ∷ s) = false

-- `std::toupper` of a `char`, in the C locale
abbrev pub to_upper : ℕ → ℕ
to_upper c = if leb 97 c && leb c 122 then c - 32 else c

abbrev pub uppercase : Text → Text
uppercase s = map to_upper s

pub text_eq_sound : (s t : Text) → text_eq s t ≡ true → s ≡ t
text_eq_sound [] [] e = refl
text_eq_sound [] (d ∷ t) e = cc e
text_eq_sound (c ∷ s) [] e = cc e
text_eq_sound (c ∷ s) (d ∷ t) e =
    let head : c ≡ d = ground (arith, e) in ap₂ ◌∷◌ head (text_eq_sound s t (ground (arith, e)))

pub text_eq_refl : (s : Text) → text_eq s s ≡ true
text_eq_refl [] = refl
text_eq_refl (c ∷ s) = ground (arith, text_eq_refl s)

pub to_upper_idem : (c : ℕ) → to_upper (to_upper c) ≡ to_upper c
to_upper_idem c = ground arith

pub uppercase_idem : (s : Text) → uppercase (uppercase s) ≡ uppercase s
uppercase_idem [] = refl
uppercase_idem (c ∷ s) = ap₂ ◌∷◌ (to_upper_idem c) (uppercase_idem s)
