-- ===== src/Control/Lines.antt =====
-- `handleClient` of server/src/control/Session.cpp: the commands in what the socket delivers, whatever
-- the pieces are in which `recv` returns it.
pub mod Pieces
use socket_programming.Base.{
  ℕ, zero, suc, ◌+◌, ◌≤◌, ◌<◌, ◌≡◌, refl, sym, ◌∙◌, ap, Bool, true, false, List, [], ◌∷◌, ◌++◌,
  Option, none, some, length, ◌==◌, if◌then◌else◌, arith, Bool-cases, Option-cases, inl, inr,
  length-append,
}
use socket_programming.Text.{Text}

-- `inBuffer.find('\n')`: what is before it, and behind it.
unfoldable pub find_newline : Text → Option (Text × Text)
find_newline [] = none
find_newline (c ∷ t) =
    let rest = find_newline t in
    if c == 10
    then some ([], t)
    else elim rest [ none ↦ none | some (line, behind) ↦ some (c ∷ line, behind) ]

-- `if (!command.empty() && command.back() == '\r') command.pop_back()`
unfoldable pub strip_return : Text → Text
strip_return [] = []
strip_return (c ∷ []) = if c == 13 then [] else c ∷ []
strip_return (c ∷ d ∷ t) = c ∷ strip_return (d ∷ t)

module _ {S : Type 0} (serve : Text → S → S) (closed : S → Bool) where
  -- The inner loop: what is left of the buffer, the state, and whether the session is over.
  unfoldable pub drain : ℕ → Text → S → Text × S × Bool
  unfolding find_newline strip_return
  drain zero buffer s = (buffer, s, false)
  drain (suc fuel) buffer s = elim (find_newline buffer) [
    | none ↦ (buffer, s, false)
    | some (line, behind) ↦
        let s' = serve (strip_return line) s in
        elim (closed s') [ true ↦ (buffer, s', true) | false ↦ drain fuel behind s' ]
  ]

  -- The outer loop, over what `recv` returns before the peer closes or the socket fails.
  unfoldable pub receive_commands : List Text → Text → S → S
  unfolding drain
  receive_commands [] buffer s = s
  receive_commands (bytes ∷ more) buffer s =
      let (left, s', over) = drain (suc (length (buffer ++ bytes))) (buffer ++ bytes) s in
      let rest = receive_commands more left s' in if over then s' else rest

  -- One byte at a time: the line so far, and the state.
  abbrev pub on_byte : ℕ → Text × S → Text × S
  on_byte c (line, s) =
      if closed s
      then (line, s)
      else if c == 10
      then ([], serve (strip_return line) s)
      else (line ++ c ∷ [], s)

  abbrev pub on_bytes : Text → Text × S → Text × S
  on_bytes [] x = x
  on_bytes (c ∷ t) x = on_bytes t (on_byte c x)

abbrev pub concat : List Text → Text
concat [] = []
concat (t ∷ ts) = t ++ concat ts
