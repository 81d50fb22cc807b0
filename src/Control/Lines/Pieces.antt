-- ===== src/Control/Lines/Pieces.antt =====
-- The commands of a control connection do not depend on the pieces in which its bytes come.
use socket_programming.Base.{
  ℕ, zero, suc, ◌<◌, ◌≡◌, refl, sym, subst, ◌∙◌, ap, Bool, true, false, List, [], ◌∷◌, ◌++◌, Option,
  none, some, length, ◌==◌, if◌then◌else◌, arith, Bool-cases, Option-cases, inl, inr,
}
use mathlib.Core.List.{append-nil, append_assoc}
use socket_programming.Text.{Text}
use socket_programming.Control.Lines.{
  find_newline, strip_return, drain, receive_commands, on_byte, on_bytes, concat,
}

-- Where the first newline of a text with a first byte is.
data First (c : ℕ) (t : Text) : Type 0 where
  here : (c == 10) ≡ true → find_newline (c ∷ t) ≡ some ([], t) → First c t
  nowhere : (c == 10) ≡ false → find_newline t ≡ none → find_newline (c ∷ t) ≡ none → First c t
  later :
      (line behind : Text)
      → (c == 10) ≡ false
      → find_newline t ≡ some (line, behind)
      → find_newline (c ∷ t) ≡ some (c ∷ line, behind)
      → First c t

find_newline-First : (c : ℕ) (t : Text) → First c t
unfolding find_newline
find_newline-First c t = elim (Bool-cases (c == 10)) [
  | inl e ↦ here e (rw e refl)
  | inr e ↦ elim (Option-cases (find_newline t)) [
    | inl n ↦ nowhere e n (rw (e, n) refl)
    | inr ((line, behind), n) ↦ later line behind e n (rw (e, n) refl)
  ]
]

abbrev Behind : Text → Option (Text × Text) → Type 0
Behind t none = Unit {0}
Behind t (some (line, behind)) = length behind < length t

find_newline-Behind : (t : Text) → Behind t (find_newline t)
unfolding find_newline
find_newline-Behind [] = tt
find_newline-Behind (c ∷ t) = elim (find_newline-First c t) [
  | here e n ↦ subst (Behind (c ∷ t)) (sym n) (omega arith)
  | nowhere e n m ↦ subst (Behind (c ∷ t)) (sym m) tt
  | later line behind e n m ↦
      let h = subst (Behind t) n (find_newline-Behind t) in
      subst (Behind (c ∷ t)) (sym m) (omega (arith, h))
]

module _ {S : Type 0} (serve : Text → S → S) (closed : S → Bool) where
  abbrev Bytes : Text → Text × S → Text × S
  Bytes = on_bytes serve closed

  on_bytes_append : (t u : Text) (x : Text × S) → Bytes (t ++ u) x ≡ Bytes u (Bytes t x)
  on_bytes_append [] u x = refl
  on_bytes_append (c ∷ t) u x = on_bytes_append t u (on_byte serve closed c x)

  on_bytes-closed : (t line : Text) (s : S) → closed s ≡ true → Bytes t (line, s) ≡ (line, s)
  on_bytes-closed [] line s e = refl
  on_bytes-closed (c ∷ t) line s e = rw e (on_bytes-closed t line s e)

  -- What the bytes of a text do, by where its first newline is.
  abbrev After : Text → Text → S → Option (Text × Text) → Type 0
  After t line s none = Bytes t (line, s) ≡ (line ++ t, s)
  After t line s (some (front, behind)) =
      Bytes t (line, s) ≡ Bytes behind ([], serve (strip_return (line ++ front)) s)

  on_bytes-After : (t line : Text) (s : S) → closed s ≡ false → After t line s (find_newline t)
  unfolding find_newline
  on_bytes-After [] line s e = ap (λ (l : Text). (l, s)) (sym (append-nil line))
  on_bytes-After (c ∷ t) line s e = elim (find_newline-First c t) [
    | here d m ↦ subst (After (c ∷ t) line s) (sym m) (rw (e, d, append-nil line) refl)
    | nowhere d m k ↦
        let rest = subst (After t (line ++ c ∷ []) s) m (on_bytes-After t (line ++ c ∷ []) s e) in
        subst (After (c ∷ t) line s) (sym k)
          (rw (e, d) (rest ∙ ap (λ (l : Text). (l, s)) (append_assoc line (c ∷ []) t)))
    | later front behind d m k ↦
        let rest = subst (After t (line ++ c ∷ []) s) m (on_bytes-After t (line ++ c ∷ []) s e) in
        subst (After (c ∷ t) line s) (sym k) (
          rw (e, d)
            (rest
              ∙ ap (λ (l : Text). Bytes behind ([], serve (strip_return l) s))
                  (append_assoc line (c ∷ []) front)))
  ]

  -- What `drain` gives. Over: the state that the bytes lead to. Not over: the state and the line so far.
  abbrev Drained : Text → S → Text × S × Bool → Type 0
  Drained t s (left, s', true) = (closed s' ≡ true) × (Bytes t ([], s) ≡ ([], s'))
  Drained t s (left, s', false) =
      (closed s' ≡ false) × ((Bytes t ([], s) ≡ (left, s')) × (Bytes left ([], s') ≡ (left, s')))

  -- A round of `drain` does what the bytes up to the newline do.
  again :
      (t behind : Text) (s s' : S) (x : Text × S × Bool)
      → Bytes t ([], s) ≡ Bytes behind ([], s')
      → Drained behind s' x
      → Drained t s x
  again t behind s s' (left, s'', true) e d = (d.0, e ∙ d.1)
  again t behind s s' (left, s'', false) e d = (d.0, (e ∙ d.1.0, d.1.1))

  -- `drain` by cases: no newline, a command that ends the session, and a command that does not.
  drain-none :
      (fuel : ℕ) (t : Text) (s : S)
      → find_newline t ≡ none
      → drain serve closed (suc fuel) t s ≡ (t, s, false)
  unfolding drain
  drain-none fuel t s n = rw (n, drain) refl

  drain-over :
      (fuel : ℕ) (t front behind : Text) (s : S)
      → find_newline t ≡ some (front, behind)
      → closed (serve (strip_return front) s) ≡ true
      → drain serve closed (suc fuel) t s ≡ (t, serve (strip_return front) s, true)
  unfolding drain
  drain-over fuel t front behind s n over = rw (n, over, drain) refl

  drain-on :
      (fuel : ℕ) (t front behind : Text) (s : S)
      → find_newline t ≡ some (front, behind)
      → closed (serve (strip_return front) s) ≡ false
      → drain serve closed (suc fuel) t s
        ≡ drain serve closed fuel behind (serve (strip_return front) s)
  unfolding drain
  drain-on fuel t front behind s n on = rw (n, on, drain) refl

  drain-Drained :
      (fuel : ℕ) (t : Text) (s : S)
      → length t < fuel
      → closed s ≡ false
      → Drained t s (drain serve closed fuel t s)
  drain-Drained zero t s h e = absurd (omega arith)
  drain-Drained (suc fuel) t s h e = elim (Option-cases (find_newline t)) [
    | inl n ↦
        let done : Bytes t ([], s) ≡ (t, s) = subst (After t [] s) n (on_bytes-After t [] s e) in
        subst (Drained t s) (sym (drain-none fuel t s n)) (e, (done, done))
    | inr ((front, behind), n) ↦
        let s' = serve (strip_return front) s in
        let shorter : length behind < length t = subst (Behind t) n (find_newline-Behind t) in
        let round : Bytes t ([], s) ≡ Bytes behind ([], s') =
          subst (After t [] s) n (on_bytes-After t [] s e) in
        elim (Bool-cases (closed s')) [
          | inl over ↦
              subst (Drained t s) (sym (drain-over fuel t front behind s n over))
                (over, round ∙ on_bytes-closed behind [] s' over)
          | inr on ↦ subst (Drained t s) (sym (drain-on fuel t front behind s n on)) (
              again t behind s s' _ round
                (drain-Drained fuel behind s' (omega (arith, h, shorter)) on))
        ]
  ]

  receive_commands-from :
      (pieces : List Text) (buffer : Text) (s : S)
      → closed s ≡ false
      → Bytes buffer ([], s) ≡ (buffer, s)
      → receive_commands serve closed pieces buffer s ≡ (Bytes (concat pieces) (buffer, s)).1
  unfolding receive_commands
  receive_commands-from [] buffer s e b = refl
  receive_commands-from (bytes ∷ more) buffer s e b =
      let t = buffer ++ bytes in
      round (drain serve closed (suc (length t)) t s)
        (drain-Drained (suc (length t)) t s (omega arith) e) (receive_commands-from more)
    where
      joined : Bytes (buffer ++ bytes) ([], s) ≡ Bytes bytes (buffer, s)
      joined = on_bytes_append buffer bytes ([], s) ∙ ap (Bytes bytes) b

      round :
          (x : Text × S × Bool)
          → Drained (buffer ++ bytes) s x
          → ((left : Text) (s' : S)
              → closed s' ≡ false
              → Bytes left ([], s') ≡ (left, s')
              → receive_commands serve closed more left s' ≡ (Bytes (concat more) (left, s')).1)
          → (if x.2 then x.1 else receive_commands serve closed more x.0 x.1)
            ≡ (Bytes (bytes ++ concat more) (buffer, s)).1
      round (left, s', true) d go = sym (
          ap (λ (x : Text × S). x.1)
            (on_bytes_append bytes (concat more) (buffer, s)
              ∙ ap (Bytes (concat more)) (sym joined ∙ d.1)
              ∙ on_bytes-closed (concat more) [] s' d.0))
      round (left, s', false) d go =
          go left s' d.0 d.1.1
          ∙ sym (
              ap (λ (x : Text × S). x.1)
                (on_bytes_append bytes (concat more) (buffer, s)
                  ∙ ap (Bytes (concat more)) (sym joined ∙ d.1.0)))

  -- Whatever the pieces are in which the bytes of a connection come, and wherever they cut a command:
  -- the commands served, and so the state, are those of the bytes taken one at a time, up to the one
  -- that closes the session.
  pub receive_commands-on_bytes :
      (pieces : List Text) (s : S)
      → closed s ≡ false
      → receive_commands serve closed pieces [] s
        ≡ (on_bytes serve closed (concat pieces) ([], s)).1
  receive_commands-on_bytes pieces s e = receive_commands-from pieces [] s e refl
