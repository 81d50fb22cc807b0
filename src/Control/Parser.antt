-- ===== src/Control/Parser.antt =====
-- server/src/control/CommandParser.cpp. `ss >> tmp` takes the next run of characters that are not
-- `isspace`, in the C locale.
pub mod Words
use socket_programming.Base.{
  ℕ, ◌≡◌, Bool, true, false, ◌&&◌, ◌||◌, List, [], ◌∷◌, ◌==◌, leb, if◌then◌else◌,
}
use socket_programming.Text.{Text, is_empty, uppercase}

pub record ParsedCommand : Type 0 where
  pub raw_command : Text
  pub type : Text
  pub args : List Text

-- One of " \t\r\n"
abbrev pub is_trimmed : ℕ → Bool
is_trimmed c = c == 32 || c == 9 || c == 13 || c == 10

abbrev pub is_space : ℕ → Bool
is_space c = c == 32 || leb 9 c && leb c 13

-- From `find_first_not_of` on.
unfoldable pub trim_front : Text → Text
trim_front [] = []
trim_front (c ∷ s) = let rest = trim_front s in if is_trimmed c then rest else c ∷ s

-- Up to `find_last_not_of`.
unfoldable pub trim_back : Text → Text
trim_back [] = []
trim_back (c ∷ s) = let rest = trim_back s in if is_empty rest && is_trimmed c then [] else c ∷ rest

unfoldable pub trim : Text → Text
unfolding trim_front trim_back
trim s = trim_back (trim_front s)

-- The word that stands at the front, if there is one, before those that follow.
abbrev pub with_word : Text → List Text → List Text
with_word [] ws = ws
with_word (c ∷ w) ws = (c ∷ w) ∷ ws

-- What stands before the first space, and the words after it.
unfoldable pub tokens : Text → Text × List Text
tokens [] = ([], [])
tokens (c ∷ s) = let (w, ws) = tokens s in if is_space c then ([], with_word w ws) else (c ∷ w, ws)

-- The words that `>>` reads, one after another.
unfoldable pub words : Text → List Text
unfolding tokens
words s = let (w, ws) = tokens s in with_word w ws

abbrev pub command_of : Text → List Text → ParsedCommand
command_of raw [] = record { raw_command = raw; type = []; args = [] }
command_of raw (w ∷ ws) = record { raw_command = raw; type = uppercase w; args = ws }

-- `parseCommand`
unfoldable pub parse_command : Text → ParsedCommand
unfolding trim words
parse_command command =
    let trimmed = trim command in
    if is_empty trimmed
    then record { raw_command = []; type = []; args = [] }
    else command_of trimmed (words trimmed)
