-- ===== src/Client/Replies/RoundTrip.antt =====
-- The client reads the reply that the server wrote.
use socket_programming.Base.{
  ℕ, suc, ◌+◌, ◌-◌, ◌*◌, ◌≡◌, refl, sym, ap, ◌∙◌, Bool, true, false, ◌&&◌, List, [], ◌∷◌, ◌++◌,
  some, if◌then◌else◌, ◌==◌, All, arith,
}
use mathlib.Core.List.{append-nil, append_assoc}
use socket_programming.Text.{Text, text_eq_refl}
use socket_programming.Control.Lines.{find_newline, strip_return}
use socket_programming.Client.Replies.{
  Reply, no_reply, is_digit, reply_code, bad, whole, more, with_line, take_line, take_lines,
}

-- No newline in a line.
abbrev pub OneLine : Text → Type 0
OneLine t = All (λ c. (c == 10) ≡ false) t

-- `std::to_string` shows a code as its three digits.
pub record Shown (to_string : ℕ → Text) (code : ℕ) : Type 0 where
  pub a : ℕ
  pub b : ℕ
  pub c : ℕ
  pub shown : to_string code ≡ a ∷ b ∷ c ∷ []
  pub digits : (is_digit a && is_digit b && is_digit c) ≡ true
  pub value : (a - 48) * 100 + (b - 48) * 10 + (c - 48) ≡ code
  pub positive : (code == 0) ≡ false

find_newline-append : (t rest : Text) → OneLine t → find_newline (t ++ 10 ∷ rest) ≡ some (t, rest)
unfolding find_newline
find_newline-append [] rest h = refl
find_newline-append (c ∷ t) rest h = rw (h.0, find_newline-append t rest h.1) refl

strip_return-append : (t : Text) → strip_return (t ++ 13 ∷ []) ≡ t
unfolding strip_return
strip_return-append [] = refl
strip_return-append (c ∷ []) = refl
strip_return-append (c ∷ d ∷ t) = ap (λ (l : Text). c ∷ l) (strip_return-append (d ∷ t))

OneLine-append : (t : Text) → OneLine t → OneLine (t ++ 13 ∷ [])
OneLine-append [] h = (refl, tt)
OneLine-append (c ∷ t) h = (h.0, OneLine-append t h.1)

-- A line with its end, in front of the rest.
crlf : (t rest : Text) → (t ++ 13 ∷ 10 ∷ []) ++ rest ≡ (t ++ 13 ∷ []) ++ 10 ∷ rest
crlf t rest = append_assoc t (13 ∷ 10 ∷ []) rest ∙ sym (append_assoc t (13 ∷ []) (10 ∷ rest))

module _ (to_string : ℕ → Text) where
  -- `take_lines` at a line with its end.
  pub take_lines-line :
      (fuel : ℕ) (t rest : Text) (r : Reply) (m : Bool)
      → OneLine t
      → take_lines to_string (suc fuel) ((t ++ 13 ∷ 10 ∷ []) ++ rest) r m
        ≡ elim (take_line to_string t r m) [
          | bad ↦ (bad, rest)
          | whole r' ↦ (whole r', rest)
          | more r' m' ↦ take_lines to_string fuel rest r' m'
        ]
  unfolding take_lines
  take_lines-line fuel t rest r m h =
      rw
        (
          crlf t rest,
          find_newline-append (t ++ 13 ∷ []) rest (OneLine-append t h),
          strip_return-append t,
          take_lines,
        )
        refl

  module _ (code : ℕ) (s : Shown to_string code) where
    abbrev pub wire : ℕ → Text → Text
    wire d l = to_string code ++ d ∷ l

    reply_code-Shown : (rest : Text) → reply_code (s.a ∷ s.b ∷ s.c ∷ rest) ≡ some code
    reply_code-Shown rest = ground (arith, s.digits, s.value)

    pub wire-OneLine : (d : ℕ) (l : Text) → (d == 10) ≡ false → OneLine l → OneLine (wire d l)
    wire-OneLine d l e h =
        rw s.shown
          (ground (arith, s.digits), (ground (arith, s.digits), (ground (arith, s.digits), (e, h))))

    pub take_line-first :
        (d : ℕ) (l : Text)
        → take_line to_string (wire d l) no_reply false ≡ (
            if d == 45
            then more (with_line to_string (wire d l) (record no_reply { code = code })) true
            else whole (with_line to_string (wire d l) (record no_reply { code = code })))
    unfolding take_line
    take_line-first d l = rw (s.shown, reply_code-Shown (d ∷ l), take_line) refl

    pub take_line-more :
        (l : Text) (r : Reply)
        → r.code ≡ code
        → take_line to_string (wire 45 l) r true ≡ more (with_line to_string (wire 45 l) r) true
    unfolding take_line
    take_line-more l r e = rw (e, s.positive, s.shown, take_line) refl

    pub take_line-last :
        (l : Text) (r : Reply)
        → r.code ≡ code
        → take_line to_string (wire 32 l) r true ≡ whole (with_line to_string (wire 32 l) r)
    unfolding take_line
    take_line-last l r e =
        rw (e, s.positive, s.shown, text_eq_refl (s.a ∷ s.b ∷ s.c ∷ []), take_line) refl

    -- The lines of a reply on the wire, without their ends.
    abbrev pub wires : List Text → List Text
    wires [] = wire 32 [] ∷ []
    wires (l ∷ []) = wire 32 l ∷ []
    wires (l ∷ next ∷ ls) = wire 45 l ∷ wires (next ∷ ls)

    abbrev pub with_lines : List Text → Reply → Reply
    with_lines [] r = r
    with_lines (w ∷ ws) r = with_lines ws (with_line to_string w r)

    pub with_lines-lines : (ws : List Text) (r : Reply) → (with_lines ws r).lines ≡ r.lines ++ ws
    with_lines-lines [] r = sym (append-nil r.lines)
    with_lines-lines (w ∷ ws) r =
        with_lines-lines ws (with_line to_string w r) ∙ append_assoc r.lines (w ∷ []) ws

    pub with_lines-code : (ws : List Text) (r : Reply) → (with_lines ws r).code ≡ r.code
    with_lines-code [] r = refl
    with_lines-code (w ∷ ws) r = with_lines-code ws (with_line to_string w r)
