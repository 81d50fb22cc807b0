-- ===== src/Files/Receive/Saved.antt =====
-- What `receiveFile` leaves at the destination.
use socket_programming.Base.{
  ℕ, ◌≡◌, ◌≢◌, refl, sym, ap, subst, ◌∙◌, Bool, true, false, List, [], ◌∷◌, ◌++◌, Option, none,
  some, if◌then◌else◌, Bool-cases, inl, inr, arith,
}
use mathlib.Core.Option.{some-ne-none, some-injective}
use mathlib.Core.Bool.{false≢true}
use socket_programming.Files.Ascii.{AsciiTranslator, decode, normalize_to_crlf-append}
use socket_programming.Files.Writer.{
  ChunkedFileWriter, Written, whole, broken, CommitIo, put_chunk, append_chunk, commit, abort,
}
use socket_programming.Files.Receive.{
  Chunk, Arrival, translate, Receiving, appended, arrive, receive_chunks, leave,
}

-- The bytes of the chunks up to the final one.
abbrev pub up_to_final : Chunk → List ℕ → List ℕ
up_to_final c rest = if c.is_final then c.bytes else c.bytes ++ rest

abbrev pub bytes_of : List Arrival → List ℕ
bytes_of [] = []
bytes_of (a ∷ rest) = elim a.received [ none ↦ [] | some c ↦ up_to_final c (bytes_of rest) ]

-- A writer that is open over the old file `d`.
abbrev pub Kept : Option (List ℕ) → ChunkedFileWriter → Type 0
Kept d w = (w.valid ≡ true) × (w.committed ≡ false) × (w.destination ≡ d)

append_empty : (xs : List ℕ) → xs ++ [] ≡ xs
append_empty [] = refl
append_empty (x ∷ xs) = ap (λ (l : List ℕ). x ∷ l) (append_empty xs)

append_assoc : (xs ys zs : List ℕ) → (xs ++ ys) ++ zs ≡ xs ++ (ys ++ zs)
append_assoc [] ys zs = refl
append_assoc (x ∷ xs) ys zs = ap (λ (l : List ℕ). x ∷ l) (append_assoc xs ys zs)

put_chunk-Kept :
    (d : Option (List ℕ)) (answer : Written) (bytes : List ℕ) (w : ChunkedFileWriter)
    → Kept d w
    → Kept d (put_chunk answer bytes w).0
put_chunk-Kept d answer [] w k = k
put_chunk-Kept d whole (b ∷ bs) w k = ground (arith, k)
put_chunk-Kept d (broken part) (b ∷ bs) w k = ground (arith, k)

append_chunk-Kept :
    (d : Option (List ℕ)) (answer : Written) (seq : ℕ) (bytes : List ℕ) (w : ChunkedFileWriter)
    → Kept d w
    → Kept d (append_chunk answer seq bytes w).0
unfolding append_chunk
append_chunk-Kept d answer seq bytes w k = ground (arith, k, put_chunk-Kept d answer bytes w k)

put_chunk_lem :
    (c : List ℕ) (answer : Written) (bytes : List ℕ) (w : ChunkedFileWriter)
    → w.temporary ≡ some c
    → (put_chunk answer bytes w).1 ≡ true
    → (put_chunk answer bytes w).0.temporary ≡ some (c ++ bytes)
put_chunk_lem c answer [] w t e =
    t ∙ ap {B = Option (List ℕ)} (λ (l : List ℕ). some l) (sym (append_empty c))
put_chunk_lem c whole (b ∷ bs) w t e = ground (arith, t, e)
put_chunk_lem c (broken part) (b ∷ bs) w t e = ground (arith, t, e)

append_chunk_lem :
    (c : List ℕ) (answer : Written) (seq : ℕ) (bytes : List ℕ) (w : ChunkedFileWriter)
    → w.temporary ≡ some c
    → (append_chunk answer seq bytes w).1 ≡ true
    → (append_chunk answer seq bytes w).0.temporary ≡ some (c ++ bytes)
unfolding append_chunk
append_chunk_lem c answer seq bytes w t = ground (arith, put_chunk_lem c answer bytes w t)

-- Translation in parts.
translate-append :
    (ascii : Bool) (xs ys : List ℕ) (t : AsciiTranslator)
    → (translate ascii (xs ++ ys) t).0
      ≡ (translate ascii xs t).0 ++ (translate ascii ys (translate ascii xs t).1).0
unfolding decode
translate-append false xs ys t = refl
translate-append true xs ys t = ap (λ (x : List ℕ × Bool). x.0) (normalize_to_crlf-append xs ys t.1)

-- From a writer that has taken `c`: whatever happens, the old file is kept; and if the loop comes to
-- the final chunk, what was written is `c` and the translation of what arrived.
abbrev pub Progress : Option (List ℕ) → List ℕ → Receiving → Type 0
Progress d all (w, result) = Kept d w × (result ≡ some true → w.temporary ≡ some all)

halted :
    (d : Option (List ℕ)) (all : List ℕ) (w : ChunkedFileWriter)
    → Kept d w
    → Progress d all (w, some false)
halted d all w k = (k, λ e. absurd (false≢true (some-injective false true e)))

appended-Progress :
    (d : Option (List ℕ)) (all : List ℕ) (x : ChunkedFileWriter × Bool) (is_final : Bool)
    (rest : ChunkedFileWriter → Receiving)
    → Kept d x.0
    → (x.1 ≡ true → is_final ≡ true → x.0.temporary ≡ some all)
    → (x.1 ≡ true → is_final ≡ false → Progress d all (rest x.0))
    → Progress d all (appended x is_final rest)
appended-Progress d all (w, false) is_final rest k last go = halted d all w k
appended-Progress d all (w, true) true rest k last go = (k, λ e. last refl refl)
appended-Progress d all (w, true) false rest k last go = go refl refl

up_to_final-true : (c : Chunk) (rest : List ℕ) → c.is_final ≡ true → up_to_final c rest ≡ c.bytes
up_to_final-true c rest e = ground (arith, e)

up_to_final-false :
    (c : Chunk) (rest : List ℕ) → c.is_final ≡ false → up_to_final c rest ≡ c.bytes ++ rest
up_to_final-false c rest e = ground (arith, e)

arrive-Progress :
    (d : Option (List ℕ)) (before : List ℕ) (a : Arrival) (later : List Arrival) (ascii : Bool)
    (t : AsciiTranslator) (w : ChunkedFileWriter)
    (rest : AsciiTranslator → ChunkedFileWriter → Receiving)
    → Kept d w
    → w.temporary ≡ some before
    → ((t' : AsciiTranslator) (w' : ChunkedFileWriter) (before' : List ℕ)
        → Kept d w'
        → w'.temporary ≡ some before'
        → Progress d (before' ++ (translate ascii (bytes_of later) t').0) (rest t' w'))
    → Progress d
        (before ++ (translate ascii (bytes_of (a ∷ later)) t).0)
        (arrive a.received a.aborted_after a.written ascii t w rest)
arrive-Progress d before a later ascii t w rest k e go = step a.received a.aborted_after
  where
    step :
        (received : Option Chunk) (aborted : Bool)
        → Progress d
            (before ++ (translate ascii (bytes_of (record a { received = received } ∷ later)) t).0)
            (arrive received aborted a.written ascii t w rest)
    step none aborted = halted d _ w k
    step (some c) true = halted d _ w k
    step (some c) false =
        let tr = translate ascii c.bytes t in
        let x = append_chunk a.written c.seq tr.0 w in
        let kept = append_chunk-Kept d a.written c.seq tr.0 w k in
        appended-Progress d (before ++ (translate ascii (up_to_final c (bytes_of later)) t).0) x
          c.is_final (rest tr.1) kept
          (λ ok last.
            append_chunk_lem before a.written c.seq tr.0 w e ok
            ∙ ap {B = Option (List ℕ)} (λ (l : List ℕ). some (before ++ (translate ascii l t).0))
                (sym (up_to_final-true c (bytes_of later) last)))
          λ ok more.
            subst (λ all. Progress d all (rest tr.1 x.0))
              (append_assoc before tr.0 (translate ascii (bytes_of later) tr.1).0
                ∙ ap (λ (l : List ℕ). before ++ l)
                    (sym (translate-append ascii c.bytes (bytes_of later) t)
                      ∙ ap (λ (l : List ℕ). (translate ascii l t).0)
                          (sym (up_to_final-false c (bytes_of later) more))))
              (go tr.1 x.0 (before ++ tr.0) kept
                (append_chunk_lem before a.written c.seq tr.0 w e ok))

pub receive_chunks-Progress :
    (d : Option (List ℕ)) (ascii : Bool) (arrivals : List Arrival) (t : AsciiTranslator)
    (w : ChunkedFileWriter) (before : List ℕ)
    → Kept d w
    → w.temporary ≡ some before
    → Progress d
        (before ++ (translate ascii (bytes_of arrivals) t).0)
        (receive_chunks ascii arrivals t w)
unfolding receive_chunks
receive_chunks-Progress d ascii [] t w before k e =
    (k, λ none_yet. absurd (some-ne-none true (sym none_yet)))
receive_chunks-Progress d ascii (a ∷ later) t w before k e = elim (Bool-cases a.aborted) [
  | inl stop ↦ rw stop (halted d _ w k)
  | inr on ↦ rw on (
      arrive-Progress d before a later ascii t w (receive_chunks ascii later) k e
        λ t' w' before' k' e'. receive_chunks-Progress d ascii later t' w' before' k' e')
]

-- What the whole call leaves: the old file, or, if it returns true, all that was received.
abbrev pub Outcome : Option (List ℕ) → List ℕ → Receiving → Type 0
Outcome d all (w, result) =
    (result ≡ some true → w.destination ≡ some all) × (result ≢ some true → w.destination ≡ d)

pub leave-Outcome :
    (d : Option (List ℕ)) (all : List ℕ) (w : ChunkedFileWriter)
    → w.destination ≡ d
    → Outcome d all (leave (w, false))
unfolding abort
leave-Outcome d all w e =
    (λ e'. absurd (false≢true (some-injective false true e')), λ ne. ground (arith, e))

pub commit-Outcome :
    (d : Option (List ℕ)) (all : List ℕ) (io : CommitIo) (w : ChunkedFileWriter)
    → Kept d w
    → w.temporary ≡ some all
    → Outcome d all (leave (commit io w))
unfolding commit abort
commit-Outcome d all io w k e = ground (arith, k, e)
