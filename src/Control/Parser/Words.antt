-- ===== src/Control/Parser/Words.antt =====
-- What the parser reads from a line of words.
use socket_programming.Base.{ℕ, ◌≡◌, refl, ap, ◌∙◌, false, List, [], ◌∷◌, ◌++◌, All, arith}
use socket_programming.Text.{Text, is_empty, uppercase}
use socket_programming.Control.Parser.{
  is_trimmed, is_space, trim_front, trim_back, trim, with_word, tokens, words, parse_command,
}

-- A word: not empty, with no space in it.
abbrev pub IsWord : Text → Type 0
IsWord w = (is_empty w ≡ false) × All (λ c. is_space c ≡ false) w

-- The words with one space between them.
abbrev pub join_words : List Text → Text
join_words [] = []
join_words (w ∷ []) = w
join_words (w ∷ v ∷ ws) = w ++ 32 ∷ join_words (v ∷ ws)

not_trimmed : (c : ℕ) → is_space c ≡ false → is_trimmed c ≡ false
not_trimmed c h = ground (arith, h)

tokens-word : (w : Text) → All (λ c. is_space c ≡ false) w → tokens w ≡ (w, [])
unfolding tokens
tokens-word [] h = refl
tokens-word (c ∷ w) h = ground (arith, h.0, tokens-word w h.1)

tokens-append :
    (w rest : Text) → All (λ c. is_space c ≡ false) w → tokens (w ++ 32 ∷ rest) ≡ (w, words rest)
unfolding tokens words
tokens-append [] rest h = refl
tokens-append (c ∷ w) rest h = ground (arith, h.0, tokens-append w rest h.1)

with_word_lem : (w : Text) (ws : List Text) → is_empty w ≡ false → with_word w ws ≡ w ∷ ws
with_word_lem [] ws h = cc h
with_word_lem (c ∷ w) ws h = refl

words-join_words : (ws : List Text) → All IsWord ws → words (join_words ws) ≡ ws
unfolding words
words-join_words [] h = unfold tokens in refl
words-join_words (w ∷ []) h = rw (tokens-word w h.0.1) (with_word_lem w [] h.0.0)
words-join_words (w ∷ v ∷ ws) h = rw (tokens-append w (join_words (v ∷ ws)) h.0.1) (
    with_word_lem w (words (join_words (v ∷ ws))) h.0.0
    ∙ ap (λ (l : List Text). w ∷ l) (words-join_words (v ∷ ws) h.1))

-- A text that neither end of which is white.
abbrev Solid : Text → Type 0
Solid s = (trim_front s ≡ s) × (trim_back s ≡ s) × (is_empty s ≡ false)

word-Solid : (w : Text) → IsWord w → Solid w
unfolding trim_front trim_back
word-Solid [] h = cc h.0
word-Solid (c ∷ []) h = ground (arith, not_trimmed c h.1.0)
word-Solid (c ∷ d ∷ w) h =
    let ih = word-Solid (d ∷ w) (refl, h.1.1) in ground (arith, not_trimmed c h.1.0, ih.1)

-- In front of a solid text, one that begins with no white.
before : (c : ℕ) (s : Text) → trim_back s ≡ s → is_empty s ≡ false → trim_back (c ∷ s) ≡ c ∷ s
unfolding trim_back
before c s e h = rw e (ground (arith, h))

back-append :
    (w s : Text)
    → trim_back s ≡ s
    → is_empty s ≡ false
    → (trim_back (w ++ s) ≡ w ++ s) × (is_empty (w ++ s) ≡ false)
back-append [] s e h = (e, h)
back-append (c ∷ w) s e h = let r = back-append w s e h in (before c (w ++ s) r.0 r.1, refl)

front-append : (w s : Text) → IsWord w → trim_front (w ++ s) ≡ w ++ s
unfolding trim_front
front-append [] s h = cc h.0
front-append (c ∷ w) s h = ground (arith, not_trimmed c h.1.0)

join_words-Solid : (w : Text) (ws : List Text) → All IsWord (w ∷ ws) → Solid (join_words (w ∷ ws))
join_words-Solid w [] h = word-Solid w h.0
join_words-Solid w (v ∷ ws) h =
    let ih = join_words-Solid v ws h.1 in
    let tail = before 32 (join_words (v ∷ ws)) ih.1 ih.2 in
    let r = back-append w (32 ∷ join_words (v ∷ ws)) tail refl in
    (front-append w (32 ∷ join_words (v ∷ ws)) h.0, r.0, r.1)

-- A line of words with one space between them is parsed into its first word, in upper case, and the
-- others as they are.
pub parse_command-join_words :
    (name : Text) (args : List Text)
    → All IsWord (name ∷ args)
    → parse_command (join_words (name ∷ args))
      ≡ record { raw_command = join_words (name ∷ args); type = uppercase name; args = args }
unfolding parse_command trim
parse_command-join_words name args h =
    let s = join_words-Solid name args h in
    rw (s.0, s.1, s.2, words-join_words (name ∷ args) h) refl
