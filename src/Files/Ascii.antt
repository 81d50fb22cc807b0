-- ===== src/Files/Ascii.antt =====
-- server/src/filesystem/AsciiTranslator.cpp: line ends in ASCII mode. A `char` is a number below 256.
use socket_programming.Base.{
  ℕ, ◌≡◌, ◌≢◌, ◌⊎◌, refl, sym, ◌∙◌, ap, Bool, true, false, List, [], ◌∷◌, ◌++◌, ◌==◌, if◌then◌else◌,
  arith,
}

abbrev pub cr : ℕ
cr = 13

abbrev pub lf : ℕ
lf = 10

abbrev pub AsciiTranslator : Type 0
AsciiTranslator = Bool × Bool  -- `encodeCarryCR` and `decodeCarryCR`

-- One turn of the loop, in front of what the rest of the input gives.
abbrev pub put : ℕ → Bool → List ℕ × Bool → List ℕ × Bool
put b prev_was_cr (out, last) =
    if b == lf
    then (if prev_was_cr then (lf ∷ out, last) else (cr ∷ lf ∷ out, last))
    else (b ∷ out, last)

-- `normalizeToCRLF`: the output, and the new value of `carryPrevCR`.
unfoldable pub normalize_to_crlf : List ℕ → Bool → List ℕ × Bool
normalize_to_crlf [] prev_was_cr = ([], prev_was_cr)
normalize_to_crlf (b ∷ rest) prev_was_cr =
    put b prev_was_cr (normalize_to_crlf rest (if b == lf then false else b == cr))

unfoldable pub encode : List ℕ → AsciiTranslator → List ℕ × AsciiTranslator
unfolding normalize_to_crlf
encode raw (encode_carry, decode_carry) =
    let (out, last) = normalize_to_crlf raw encode_carry in (out, (last, decode_carry))

unfoldable pub decode : List ℕ → AsciiTranslator → List ℕ × AsciiTranslator
unfolding normalize_to_crlf
decode wire (encode_carry, decode_carry) =
    let (out, last) = normalize_to_crlf wire decode_carry in (out, (encode_carry, last))

-- After a byte was put, it is what counts for the next.
abbrev pub after : ℕ → Bool
after b = b == cr

-- Whether the last byte of a text, or the one before it if it is empty, is a CR.
abbrev pub ends_in_cr : List ℕ → Bool → Bool
ends_in_cr [] prev = prev
ends_in_cr (b ∷ rest) prev = ends_in_cr rest (after b)

-- Each LF stands behind a CR.
abbrev pub IsCrlf : List ℕ → Bool → Type 0
IsCrlf [] prev = Unit {0}
IsCrlf (b ∷ rest) prev = ((b ≢ lf) ⊎ (prev ≡ true)) × IsCrlf rest (after b)

carry_eq : (b : ℕ) → (if b == lf then false else b == cr) ≡ after b
carry_eq b = ground arith

-- Translating a text in two parts, the carry handed on, is translating the whole: the translation
-- does not depend on where the chunks are cut.
pub normalize_to_crlf-append :
    (xs ys : List ℕ) (prev : Bool)
    → let (out, carry) = normalize_to_crlf xs prev in
      let (more, last) = normalize_to_crlf ys carry in
      normalize_to_crlf (xs ++ ys) prev ≡ (out ++ more, last)
unfolding normalize_to_crlf
normalize_to_crlf-append [] ys prev = refl
normalize_to_crlf-append (b ∷ xs) ys prev =
    let c : Bool = if b == lf then false else b == cr in
    ground (arith, normalize_to_crlf-append xs ys c)

-- What comes out has each LF behind a CR, and the carry says whether it ends in a CR.
pub normalize_to_crlf-IsCrlf :
    (xs : List ℕ) (prev : Bool)
    → let (out, last) = normalize_to_crlf xs prev in IsCrlf out prev × (last ≡ ends_in_cr out prev)
unfolding normalize_to_crlf
normalize_to_crlf-IsCrlf [] prev = (tt, refl)
normalize_to_crlf-IsCrlf (b ∷ xs) prev =
    ground (arith, normalize_to_crlf-IsCrlf xs (if b == lf then false else b == cr))

-- A text that has each LF behind a CR is left as it is.
pub IsCrlf-normalize_to_crlf :
    (xs : List ℕ) (prev : Bool)
    → IsCrlf xs prev
    → normalize_to_crlf xs prev ≡ (xs, ends_in_cr xs prev)
unfolding normalize_to_crlf
IsCrlf-normalize_to_crlf [] prev h = refl
IsCrlf-normalize_to_crlf (b ∷ xs) prev h =
    ground (arith, h.0, carry_eq b, IsCrlf-normalize_to_crlf xs (after b) h.1)

-- Translating a translated text again changes nothing, whatever the carry.
pub normalize_to_crlf-normalize_to_crlf :
    (xs : List ℕ) (prev : Bool)
    → normalize_to_crlf (normalize_to_crlf xs prev).0 prev ≡ normalize_to_crlf xs prev
normalize_to_crlf-normalize_to_crlf xs prev =
    let r = normalize_to_crlf-IsCrlf xs prev in
    IsCrlf-normalize_to_crlf (normalize_to_crlf xs prev).0 prev r.0
    ∙ ap (λ (l : Bool). ((normalize_to_crlf xs prev).0, l)) (sym r.1)
