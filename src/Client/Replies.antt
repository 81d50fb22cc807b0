-- ===== src/Client/Replies.antt =====
-- How the client reads a reply: `readReply` of client/src/control/Session.cpp.
pub mod RoundTrip
pub mod Whole
use socket_programming.Base.{
  ℕ, zero, suc, ◌+◌, ◌-◌, ◌*◌, Bool, true, false, not, ◌&&◌, ◌||◌, List, [], ◌∷◌, ◌++◌, Option,
  none, some, if◌then◌else◌, ◌==◌, leb, length,
}
use socket_programming.Text.{Text, text_eq}
use socket_programming.Control.Lines.{find_newline, strip_return}

pub record Reply : Type 0 where
  pub code : ℕ
  pub line : Text
  pub lines : List Text

abbrev pub no_reply : Reply
no_reply = record { code = 0; line = []; lines = [] }

abbrev pub is_digit : ℕ → Bool
is_digit c = leb 48 c && leb c 57

-- The first three characters as a number, if they are digits: the test, and `std::stoi`.
abbrev pub reply_code : Text → Option ℕ
reply_code (a ∷ b ∷ c ∷ rest) =
    if not (is_digit a) || not (is_digit b) || not (is_digit c)
    then none
    else some ((a - 48) * 100 + (b - 48) * 10 + (c - 48))
reply_code _ = none

-- `line.size() > 3 && line[3] == d`
abbrev pub fourth_is : ℕ → Text → Bool
fourth_is d (a ∷ b ∷ c ∷ e ∷ rest) = e == d
fourth_is d _ = false

-- `line.compare(0, 3, text) == 0`
abbrev pub first_three_are : Text → Text → Bool
first_three_are text (a ∷ b ∷ c ∷ rest) = text_eq (a ∷ b ∷ c ∷ []) text
first_three_are text line = text_eq line text

-- After a line: a bad reply, a whole one, or one to go on with, and whether it has several lines.
pub data Progress : Type 0 where
  bad : Progress
  whole : Reply → Progress
  more : Reply → Bool → Progress

module _ (to_string : ℕ → Text) where
  abbrev pub with_line : Text → Reply → Reply
  with_line line r = record r { line = line; lines = r.lines ++ line ∷ [] }

  abbrev pub first_line : Option ℕ → Text → Reply → Progress
  first_line none line r = bad
  first_line (some code) line r =
      let r' = with_line line (record r { code = code }) in
      if fourth_is 45 line then more r' true else whole r'

  unfoldable pub take_line : Text → Reply → Bool → Progress
  take_line line r multiline =
      if r.code == 0
      then first_line (reply_code line) line r
      else if multiline && fourth_is 32 line && first_three_are (to_string r.code) line
      then whole (with_line line r)
      else more (with_line line r) multiline

  -- The inner loop: where the lines of the buffer lead, and what is left of it.
  unfoldable pub take_lines : ℕ → Text → Reply → Bool → Progress × Text
  unfolding take_line find_newline strip_return
  take_lines zero buffer r multiline = (more r multiline, buffer)
  take_lines (suc fuel) buffer r multiline = elim (find_newline buffer) [
    | none ↦ (more r multiline, buffer)
    | some (line, behind) ↦ elim (take_line (strip_return line) r multiline) [
      | bad ↦ (bad, behind)
      | whole r' ↦ (whole r', behind)
      | more r' multiline' ↦ take_lines fuel behind r' multiline'
    ]
  ]

  -- The outer loop, over what `recv` returns: the reply, what is left of the buffer, and what is still
  -- to be received.
  abbrev pub settled :
      Progress
      → Text
      → List Text
      → (Reply → Bool → Option Reply × Text × List Text)
      → Option Reply × Text × List Text
  settled bad left pieces go = (none, left, pieces)
  settled (whole r) left pieces go = (some r, left, pieces)
  settled (more r multiline) left pieces go = go r multiline

  unfoldable pub receive_reply : List Text → Text → Reply → Bool → Option Reply × Text × List Text
  unfolding take_lines
  receive_reply [] buffer r multiline =
      let (p, left) = take_lines (suc (length buffer)) buffer r multiline in
      settled p left [] λ r' multiline'. (none, left, [])
  receive_reply (piece ∷ pieces) buffer r multiline =
      let (p, left) = take_lines (suc (length buffer)) buffer r multiline in
      settled p left (piece ∷ pieces)
        λ r' multiline'. receive_reply pieces (left ++ piece) r' multiline'

  -- `readReply`
  abbrev pub read_reply : List Text → Text → Option Reply × Text × List Text
  read_reply pieces buffer = receive_reply pieces buffer no_reply false
