-- ===== src/Client/Replies/Whole.antt =====
-- The client reads back a reply of several lines, from the code that the server wrote.
use socket_programming.Base.{
  ℕ, zero, suc, ◌<◌, ◌≤◌, ◌≡◌, refl, ap, subst, ◌∙◌, true, false, List, [], ◌∷◌, ◌++◌, Option, none,
  some, ◌==◌, length, All, arith, length-append, Bool-cases, Option-cases, inl, inr,
}
use mathlib.Core.List.{append_assoc}
use socket_programming.Text.{Text}
use socket_programming.Control.Lines.{find_newline, strip_return}
use socket_programming.FileSystem.{FileSystem}
use socket_programming.Control.Session.{
  get_lines, stripped, response, multiline, multiline_response,
}
use socket_programming.Client.Replies.{
  Reply, no_reply, whole, with_line, take_lines, receive_reply, read_reply,
}
use socket_programming.Client.Replies.RoundTrip.{
  OneLine, Shown, take_lines-line, wire, wire-OneLine, take_line-first, take_line-more,
  take_line-last, wires, with_lines, with_lines-lines, with_lines-code,
}

-- A whole reply in the buffer: nothing more is received.
read_reply-whole :
    (to_string : ℕ → Text) (pieces : List Text) (buffer left : Text) (r : Reply)
    → take_lines to_string (suc (length buffer)) buffer no_reply false ≡ (whole r, left)
    → read_reply to_string pieces buffer ≡ (some r, left, pieces)
unfolding receive_reply
read_reply-whole to_string [] buffer left r e = rw (e, receive_reply) refl
read_reply-whole to_string (piece ∷ pieces) buffer left r e = rw (e, receive_reply) refl

-- What is in front of the first newline, or the whole text, is one line.
abbrev FrontOneLine : Text → Option (Text × Text) → Type 0
FrontOneLine t none = OneLine t
FrontOneLine t (some (line, behind)) = OneLine line

find_newline-FrontOneLine : (t : Text) → FrontOneLine t (find_newline t)
unfolding find_newline
find_newline-FrontOneLine [] = tt
find_newline-FrontOneLine (c ∷ t) = elim (Bool-cases (c == 10)) [
  | inl e ↦ rw (e, find_newline, FrontOneLine) tt
  | inr e ↦ elim (Option-cases (find_newline t)) [
    | inl n ↦
        rw (e, n, find_newline, FrontOneLine)
          (e, subst (FrontOneLine t) n (find_newline-FrontOneLine t))
    | inr ((line, behind), n) ↦
        rw (e, n, find_newline, FrontOneLine)
          (e, subst (FrontOneLine t) n (find_newline-FrontOneLine t))
  ]
]

get_lines-OneLine : (fuel : ℕ) (t : Text) → All OneLine (get_lines fuel t)
unfolding get_lines
get_lines-OneLine zero t = tt
get_lines-OneLine (suc fuel) [] = tt
get_lines-OneLine (suc fuel) (c ∷ t) = elim (Option-cases (find_newline (c ∷ t))) [
  | inl n ↦
      rw (n, get_lines) (subst (FrontOneLine (c ∷ t)) n (find_newline-FrontOneLine (c ∷ t)), tt)
  | inr ((line, behind), n) ↦
      rw (n, get_lines)
        (
          subst (FrontOneLine (c ∷ t)) n (find_newline-FrontOneLine (c ∷ t)),
          get_lines-OneLine fuel behind,
        )
]

strip_return-OneLine : (t : Text) → OneLine t → OneLine (strip_return t)
unfolding strip_return
strip_return-OneLine [] h = tt
strip_return-OneLine (c ∷ []) h = elim (Bool-cases (c == 13)) [
  | inl e ↦ rw (e, strip_return) tt
  | inr e ↦ rw (e, strip_return) h
]
strip_return-OneLine (c ∷ d ∷ t) h = (h.0, strip_return-OneLine (d ∷ t) h.1)

stripped-OneLine : (ls : List Text) → All OneLine ls → All OneLine (stripped ls)
stripped-OneLine [] h = tt
stripped-OneLine (l ∷ ls) h = (strip_return-OneLine l h.0, stripped-OneLine ls h.1)

module _ (fs : FileSystem) (code : ℕ) (s : Shown fs.to_string code) where
  abbrev w : ℕ → Text → Text
  w = wire fs.to_string code s

  -- A line that is not the last one, and the last one.
  dash_line :
      (l behind rest : Text)
      → ((fs.to_string code ++ 45 ∷ l ++ 13 ∷ 10 ∷ []) ++ behind) ++ rest
        ≡ (w 45 l ++ 13 ∷ 10 ∷ []) ++ (behind ++ rest)
  dash_line l behind rest = append_assoc (fs.to_string code ++ 45 ∷ l ++ 13 ∷ 10 ∷ []) behind rest

  last_line : (l : Text) → response fs code l ≡ w 32 l ++ 13 ∷ 10 ∷ []
  unfolding response
  last_line l = refl

  -- The lines of a reply whose first line has been read.
  take_lines-multiline :
      (l : Text) (ls : List Text) (fuel : ℕ) (rest : Text) (r : Reply)
      → r.code ≡ code
      → length ls < fuel
      → All OneLine (l ∷ ls)
      → take_lines fs.to_string fuel (multiline fs code (l ∷ ls) ++ rest) r true
        ≡ (whole (with_lines fs.to_string code s (wires fs.to_string code s (l ∷ ls)) r), rest)
  take_lines-multiline l ls zero rest r e f h = absurd (omega arith)
  take_lines-multiline l [] (suc fuel) rest r e f h =
      ap (λ (t : Text). take_lines fs.to_string (suc fuel) (t ++ rest) r true) (last_line l)
      ∙ take_lines-line fs.to_string fuel (w 32 l) rest r true
          (wire-OneLine fs.to_string code s 32 l refl h.0)
      ∙ rw (take_line-last fs.to_string code s l r e) refl
  take_lines-multiline l (next ∷ ls) (suc fuel) rest r e f h =
      ap (λ (t : Text). take_lines fs.to_string (suc fuel) t r true)
        (dash_line l (multiline fs code (next ∷ ls)) rest)
      ∙ take_lines-line fs.to_string fuel (w 45 l) (multiline fs code (next ∷ ls) ++ rest) r true
          (wire-OneLine fs.to_string code s 45 l refl h.0)
      ∙ rw (take_line-more fs.to_string code s l r e) (
          take_lines-multiline next ls fuel rest (with_line fs.to_string (w 45 l) r) e (omega arith)
            h.1)

  abbrev begun : Reply
  begun = record no_reply { code = code }

  -- What the client makes of the lines of a reply.
  abbrev read : List Text → Reply
  read ls = with_lines fs.to_string code s (wires fs.to_string code s ls) begun

  read-single :
      (l rest : Text) (fuel : ℕ)
      → OneLine l
      → take_lines fs.to_string (suc fuel) (multiline fs code (l ∷ []) ++ rest) no_reply false
        ≡ (whole (read (l ∷ [])), rest)
  read-single l rest fuel h =
      ap (λ (t : Text). take_lines fs.to_string (suc fuel) (t ++ rest) no_reply false) (last_line l)
      ∙ take_lines-line fs.to_string fuel (w 32 l) rest no_reply false
          (wire-OneLine fs.to_string code s 32 l refl h)
      ∙ rw (take_line-first fs.to_string code s 32 l) refl

  take_lines-read :
      (ls : List Text) (fuel : ℕ) (rest : Text)
      → length ls ≤ fuel
      → All OneLine ls
      → take_lines fs.to_string (suc fuel) (multiline fs code ls ++ rest) no_reply false
        ≡ (whole (read ls), rest)
  take_lines-read [] fuel rest f h = read-single [] rest fuel tt
  take_lines-read (l ∷ []) fuel rest f h = read-single l rest fuel h.0
  take_lines-read (l ∷ next ∷ ls) fuel rest f h =
      ap (λ (t : Text). take_lines fs.to_string (suc fuel) t no_reply false)
        (dash_line l (multiline fs code (next ∷ ls)) rest)
      ∙ take_lines-line fs.to_string fuel (w 45 l) (multiline fs code (next ∷ ls) ++ rest) no_reply
          false (wire-OneLine fs.to_string code s 45 l refl h.0)
      ∙ rw (take_line-first fs.to_string code s 45 l) (
          take_lines-multiline next ls fuel rest (with_line fs.to_string (w 45 l) begun) refl
            (omega (arith, f)) h.1)

  -- There are no more lines than characters on the wire.
  length-multiline : (ls : List Text) → length ls ≤ length (multiline fs code ls)
  unfolding response
  length-multiline [] = omega arith
  length-multiline (l ∷ []) =
      omega (arith, length-append (fs.to_string code ++ 32 ∷ l) (13 ∷ 10 ∷ []))
  length-multiline (l ∷ next ∷ ls) = omega (
    arith,
    length-multiline (next ∷ ls),
    length-append (fs.to_string code ++ 45 ∷ l ++ 13 ∷ 10 ∷ []) (multiline fs code (next ∷ ls)),
    length-append (fs.to_string code ++ 45 ∷ l) (13 ∷ 10 ∷ []),
  )

  read_reply-multiline :
      (ls : List Text) (rest : Text) (pieces : List Text)
      → All OneLine ls
      → read_reply fs.to_string pieces (multiline fs code ls ++ rest)
        ≡ (some (read ls), rest, pieces)
  read_reply-multiline ls rest pieces h =
      read_reply-whole fs.to_string pieces (multiline fs code ls ++ rest) rest (read ls) (
        take_lines-read ls (length (multiline fs code ls ++ rest)) rest
          (omega (arith, length-multiline ls, length-append (multiline fs code ls) rest)) h)

  -- What the server writes for a reply of several lines is a whole reply to the client, whatever follows
  -- it and whatever is still to come: its code is the server's, if `to_string` shows the code as three
  -- digits, its lines are those on the wire, and what follows is left in the buffer.
  pub read_reply-multiline_response :
      (message rest : Text) (pieces : List Text)
      → (r : Reply) × ((read_reply fs.to_string pieces (multiline_response fs code message ++ rest)
            ≡ (some r, rest, pieces))
          × ((r.code ≡ code)
              × (r.lines
                  ≡ wires fs.to_string code s
                      (stripped (get_lines (suc (length message)) message)))))
  unfolding multiline_response
  read_reply-multiline_response message rest pieces =
      let ls = stripped (get_lines (suc (length message)) message) in
      (
        read ls,
        (
          read_reply-multiline ls rest pieces
              (stripped-OneLine _ (get_lines-OneLine (suc (length message)) message)),
          (
            with_lines-code fs.to_string code s (wires fs.to_string code s ls) begun,
            with_lines-lines fs.to_string code s (wires fs.to_string code s ls) begun,
          ),
        ),
      )
