-- ===== src/Files/Transfer/Complete.antt =====
-- What `sendFromReader` has sent when it returns true.
use socket_programming.Base.{
  ℕ, zero, suc, ◌+◌, ◌%◌, ◌^◌, ◌≤◌, ◌≡◌, refl, sym, ap, subst, Bool, true, false, List, [], ◌∷◌,
  ◌++◌, none, some, length, All, Bool-cases, inl, inr, arith,
}
use mathlib.Core.Option.{some-ne-none, some-injective}
use mathlib.Core.Bool.{false≢true}
use socket_programming.Files.Reader.{Reader, Next}
use socket_programming.Files.Transfer.{
  Call, Transport, Sending, returns, and_then, unless, calling, call_of, flush_empty, finish, pass,
  send_loop, begin, send_from_reader, Sends,
}

-- The chunks are at most 1024 bytes long.
abbrev pub SendsSmall : ℕ → List Call → List ℕ → Type 0
SendsSmall seq calls content = Sends seq calls content × All (λ c. length c.payload ≤ 1024) calls

module _ (reader : Reader) (transport : Transport) where
  open reader use {S, is_open, next, content}
  open transport use {T, send_chunk, flush, aborted}

  abbrev Out : Type 0
  Out = Sending reader transport

  -- If the return value is true, `P` holds of the calls.
  abbrev OnTrue : (List Call → Type 0) → Out → Type 0
  OnTrue P (t, calls, result) = result ≡ some true → P calls

  stopped : (P : List Call → Type 0) (t : T) → OnTrue P (returns reader transport false t)
  stopped P t e = absurd (false≢true (some-injective false true e))

  unless-OnTrue :
      (P : List Call → Type 0) (x : T × Bool) (rest : T → Out)
      → ((t : T) → OnTrue P (rest t))
      → OnTrue P (unless reader transport x rest)
  unless-OnTrue P (t, true) rest h = stopped P t
  unless-OnTrue P (t, false) rest h = h t

  and_then-OnTrue :
      (P : List Call → Type 0) (x : T × Bool) (rest : T → Out)
      → ((t : T) → OnTrue P (rest t))
      → OnTrue P (and_then reader transport x rest)
  and_then-OnTrue P (t, true) rest h = h t
  and_then-OnTrue P (t, false) rest h = stopped P t

  sent-OnTrue :
      (P : List Call → Type 0) (c : Call) (x : T × Bool) (rest : T → Out)
      → ((t : T) → OnTrue (λ calls. P (c ∷ calls)) (rest t))
      → OnTrue P (calling reader transport c (and_then reader transport x rest))
  sent-OnTrue P c (t, true) rest h = h t
  sent-OnTrue P c (t, false) rest h = stopped (λ calls. P (c ∷ calls)) t

  finish-OnTrue : (P : List Call → Type 0) (t : T) → P [] → OnTrue P (finish reader transport t)
  finish-OnTrue P t h =
      unless-OnTrue P (aborted t) _
        λ t1. and_then-OnTrue P (flush t1) _ λ t2. unless-OnTrue P (aborted t2) _ λ t3 e. h

  Sends-cons :
      (seq : ℕ) (current more : List ℕ) (calls : List Call)
      → Sends ((seq + 1) % 2 ^ 32) calls more
      → Sends seq (call_of reader transport seq current false ∷ calls) (current ++ more)
  Sends-cons seq current more [] h = absurd h
  Sends-cons seq current more (d ∷ rest) h = (more, refl, refl, refl, h)

  -- What the loop sends, from chunk `current` on.
  abbrev Rest : ℕ → List ℕ → List Call → Type 0
  Rest seq all calls = SendsSmall seq calls all

  append_empty : (xs ys : List ℕ) → ys ≡ [] → xs ++ ys ≡ xs
  append_empty [] ys e = e
  append_empty (x ∷ xs) ys e = ap (λ (l : List ℕ). x ∷ l) (append_empty xs ys e)

  pass-OnTrue :
      (seq : ℕ) (current all : List ℕ) (x : Next S) (again : List ℕ → S → T → Out) (t : T)
      → length current ≤ 1024
      → (x.0 ≡ none → all ≡ [])
      → ((following : List ℕ)
          → x.0 ≡ some following
          → (t : T) → OnTrue (Rest ((seq + 1) % 2 ^ 32) all) (again following x.1 t))
      → OnTrue (Rest seq (current ++ all)) (pass reader transport x seq current again t)
  pass-OnTrue seq current all (none, s) again t small ends go =
      let c = call_of reader transport seq current true in
      unless-OnTrue (Rest seq (current ++ all)) (aborted t) _ λ t1.
        sent-OnTrue (Rest seq (current ++ all)) c (send_chunk c t1) (finish reader transport) λ t2.
          finish-OnTrue (λ calls. Rest seq (current ++ all) (c ∷ calls)) t2
            (ap (call_last seq) (sym (append_empty current all (ends refl))), (small, tt))
    where
      call_last : ℕ → List ℕ → Call
      call_last n p = record { seq = n; payload = p; is_final = true }
  pass-OnTrue seq current all (some following, s) again t small ends go =
      let c = call_of reader transport seq current false in
      unless-OnTrue (Rest seq (current ++ all)) (aborted t) _ λ t1.
        sent-OnTrue (Rest seq (current ++ all)) c (send_chunk c t1) (again following s) λ t2 e.
          let r = go following refl t2 e in
          (Sends-cons seq current all (again following s t2).1 r.0, (small, r.1))

  send_loop-OnTrue :
      (n seq : ℕ) (current : List ℕ) (s : S) (t : T)
      → length current ≤ 1024
      → OnTrue (Rest seq (current ++ content s)) (send_loop reader transport n seq current s t)
  unfolding send_loop
  send_loop-OnTrue zero seq current s t small = λ e. absurd (some-ne-none true (sym e))
  send_loop-OnTrue (suc n) seq current s t small =
      pass-OnTrue seq current (content s) (next s)
        (send_loop reader transport n ((seq + 1) % 2 ^ 32)) t small (reader.none_lem s)
        λ following e t2.
          let l = reader.some_lem s following e in
          subst
            (λ all.
              OnTrue (Rest ((seq + 1) % 2 ^ 32) all)
                (send_loop reader transport n ((seq + 1) % 2 ^ 32) following (next s).1 t2))
            (sym l.2) (send_loop-OnTrue n ((seq + 1) % 2 ^ 32) following (next s).1 t2 l.1)

  begin-OnTrue :
      (all : List ℕ) (x : Next S) (loop : List ℕ → S → T → Out) (t : T)
      → (x.0 ≡ none → all ≡ [])
      → ((first : List ℕ) → x.0 ≡ some first → (t : T) → OnTrue (Rest 0 all) (loop first x.1 t))
      → OnTrue (Rest 0 all) (begin reader transport x loop t)
  begin-OnTrue all (some first, s) loop t ends go = go first refl t
  begin-OnTrue all (none, s) loop t ends go =
      let c = call_of reader transport 0 [] true in
      let P : List Call → Type 0 = λ calls. Rest 0 all (c ∷ calls) in
      unless-OnTrue (Rest 0 all) (aborted t) _ λ t1.
        sent-OnTrue (Rest 0 all) c (send_chunk c t1) (flush_empty reader transport) λ t2.
          unless-OnTrue P (aborted t2) _ λ t3. and_then-OnTrue P (flush t3) _ λ t4 e. (
            ap (λ (p : List ℕ). call_of reader transport 0 p true) (sym (ends refl)),
            (omega arith, tt),
          )

  -- If the transfer returns true, what it has given to `sendChunk` is the whole content of the reader,
  -- in chunks of at most 1024 bytes, numbered from 0 on, the last one and no other marked final;
  -- whatever the transport and the abort predicate answer.
  pub send_from_reader-Sends :
      (rounds : ℕ) (s : S) (t : T)
      → (send_from_reader reader transport rounds s t).2 ≡ some true
      → SendsSmall 0 (send_from_reader reader transport rounds s t).1 (content s)
  unfolding send_from_reader
  send_from_reader-Sends rounds s t = elim (Bool-cases (reader.is_open s)) [
    | inr shut ↦ rw shut (stopped (Rest 0 (content s)) t)
    | inl ready ↦ rw ready (
        unless-OnTrue (Rest 0 (content s)) (aborted t) _ λ t1.
          begin-OnTrue (content s) (next s) (send_loop reader transport rounds 0) t1
            (reader.none_lem s)
            λ first e t2.
              let l = reader.some_lem s first e in
              subst
                (λ all.
                  OnTrue (Rest 0 all) (send_loop reader transport rounds 0 first (next s).1 t2))
                (sym l.2) (send_loop-OnTrue rounds 0 first (next s).1 t2 l.1))
  ]
