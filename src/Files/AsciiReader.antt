-- ===== src/Files/AsciiReader.antt =====
-- server/src/filesystem/AsciiChunkedReader.cpp: the reader of ASCII mode, over the reader of the file
-- and the translator.
use socket_programming.Base.{
  ℕ, zero, suc, ◌≤◌, ◌<◌, ◌≡◌, ◌⊎◌, inl, inr, refl, sym, ap, ◌∙◌, Bool, true, false, List, [], ◌∷◌,
  ◌++◌, Option, none, some, length, take, drop, take-append-drop, length-take, length-append, leb,
  if◌then◌else◌, Bool-cases, arith,
}
use mathlib.Core.Option.{some-injective}
use socket_programming.Files.Ascii.{
  AsciiTranslator, encode, normalize_to_crlf, normalize_to_crlf-append,
}
use socket_programming.Files.Reader.{
  Reader, Next, ChunkedFileReader, chunk_size, next_chunk, unread, readable, nearer, drop-readable,
  read_some-state, next_chunk-none, next_chunk-some,
}

pub record AsciiChunkedReader : Type 0 where
  pub reader : ChunkedFileReader
  pub translator : AsciiTranslator
  pub pending_output : List ℕ

-- A chunk of the file, translated, behind what is pending.
abbrev pub take_in : AsciiChunkedReader → List ℕ → ChunkedFileReader → AsciiChunkedReader
take_in a raw reader =
    let (translated, translator) = encode raw a.translator in
    record {
      reader = reader;
      translator = translator;
      pending_output = a.pending_output ++ translated;
    }

abbrev pub refill :
    Next ChunkedFileReader
    → AsciiChunkedReader
    → (AsciiChunkedReader → AsciiChunkedReader)
    → AsciiChunkedReader
refill (none, reader) a rest = record a { reader = reader }
refill (some raw, reader) a rest = rest (take_in a raw reader)

-- `while (pendingOutput.size() < CHUNK_SIZE)`, for a number of rounds.
unfoldable pub fill : ℕ → AsciiChunkedReader → AsciiChunkedReader
fill zero a = a
fill (suc n) a =
    if leb chunk_size (length a.pending_output) then a else refill (next_chunk a.reader) a (fill n)

abbrev pub give : List ℕ → AsciiChunkedReader → Next AsciiChunkedReader
give [] a = (none, a)
give (b ∷ bs) a =
    (some (take chunk_size (b ∷ bs)), record a { pending_output = drop chunk_size (b ∷ bs) })

-- `AsciiChunkedReader::nextChunk`: each round of the loop takes a byte of the file at least, so their
-- number is bounded.
unfoldable pub next_ascii_chunk : AsciiChunkedReader → Next AsciiChunkedReader
unfolding fill
next_ascii_chunk a = let full = fill (suc (length a.reader.rest)) a in give full.pending_output full

-- What is still to come: what is pending, and the rest of the file, translated.
abbrev pub untold : AsciiChunkedReader → List ℕ
untold a = a.pending_output ++ (normalize_to_crlf (unread a.reader) a.translator.0).0

append_assoc : (xs ys zs : List ℕ) → (xs ++ ys) ++ zs ≡ xs ++ (ys ++ zs)
append_assoc [] ys zs = refl
append_assoc (x ∷ xs) ys zs = ap (λ (l : List ℕ). x ∷ l) (append_assoc xs ys zs)

take_in-untold :
    (a : AsciiChunkedReader) (raw : List ℕ) (reader : ChunkedFileReader)
    → unread a.reader ≡ raw ++ unread reader
    → untold (take_in a raw reader) ≡ untold a
unfolding encode
take_in-untold a raw reader e =
    let t = normalize_to_crlf raw a.translator.0 in
    append_assoc a.pending_output t.0 (normalize_to_crlf (unread reader) t.1).0
    ∙ ap (λ (x : List ℕ × Bool). a.pending_output ++ x.0)
        (sym (normalize_to_crlf-append raw (unread reader) a.translator.0)
          ∙ ap (λ (x : List ℕ). normalize_to_crlf x a.translator.0) (sym e))

-- What the loop leaves, with rounds enough: as much to come as before, and a full chunk or all of it
-- pending.
abbrev Filled : AsciiChunkedReader → AsciiChunkedReader → Type 0
Filled a full =
    (untold full ≡ untold a) × ((1024 ≤ length full.pending_output) ⊎ (unread full.reader ≡ []))

leb_le : (m n : ℕ) → leb m n ≡ true → m ≤ n
leb_le m n e = ground arith

length_rest : (a : ChunkedFileReader) → length (unread a) ≤ length a.rest
length_rest a = go a.stream_open a.fails_in
  where
    go :
        (o : Bool) (f : Option ℕ)
        → length (unread (record a { stream_open = o; fails_in = f })) ≤ length a.rest
    go false f = omega arith
    go true none = omega arith
    go true (some n) = omega (arith, length-take n a.rest)

next_chunk_ends : (r : ChunkedFileReader) → (next_chunk r).0 ≡ none → unread (next_chunk r).1 ≡ []
unfolding next_chunk
next_chunk_ends r = go r.stream_open r.rest r.fails_in
  where
    go :
        (o : Bool) (rest : List ℕ) (f : Option ℕ)
        → let r' : ChunkedFileReader = record { stream_open = o; rest = rest; fails_in = f } in
          (next_chunk r').0 ≡ none → unread (next_chunk r').1 ≡ []
    go false rest f e = refl
    go true rest f e =
        let r' : ChunkedFileReader = record { stream_open = true; rest = rest; fails_in = f } in
        let next : ChunkedFileReader = record {
          stream_open = true;
          rest = drop 1024 rest;
          fails_in = nearer 1024 f;
        } in
        rw (read_some-state (take 1024 (readable f rest)) next) (
          sym (drop-readable 1024 f rest) ∙ ap (λ (l : List ℕ). drop 1024 l) (next_chunk-none r' e))

refill-Filled :
    (n : ℕ) (a : AsciiChunkedReader) (x : Next ChunkedFileReader)
    → x ≡ next_chunk a.reader
    → length (unread a.reader) < suc n
    → ((b : AsciiChunkedReader) → length (unread b.reader) < n → Filled b (fill n b))
    → Filled a (refill x a (fill n))
refill-Filled n a (none, reader) e lt ih =
    let empty = next_chunk-none a.reader (ap (λ (x : Next ChunkedFileReader). x.0) (sym e)) in
    let after : unread reader ≡ [] =
      ap (λ (x : Next ChunkedFileReader). unread x.1) e
      ∙ next_chunk_ends a.reader (ap (λ (x : Next ChunkedFileReader). x.0) (sym e)) in
    (
      ap (λ (u : List ℕ). a.pending_output ++ (normalize_to_crlf u a.translator.0).0)
          (after ∙ sym empty),
      inr after,
    )
refill-Filled n a (some raw, reader) e lt ih =
    let got = next_chunk-some a.reader raw (ap (λ (x : Next ChunkedFileReader). x.0) (sym e)) in
    let split : unread a.reader ≡ raw ++ unread reader =
      got.2 ∙ ap (λ (x : Next ChunkedFileReader). raw ++ unread x.1) (sym e) in
    let r =
      ih (take_in a raw reader)
        (omega (arith, ap length split, length-append raw (unread reader), got.0)) in
    (r.0 ∙ take_in-untold a raw reader split, r.1)

fill-Filled : (n : ℕ) (a : AsciiChunkedReader) → length (unread a.reader) < n → Filled a (fill n a)
unfolding fill
fill-Filled zero a lt = absurd (omega arith)
fill-Filled (suc n) a lt = elim (Bool-cases (leb chunk_size (length a.pending_output))) [
  | inl enough ↦ rw enough (refl, inl (leb_le _ _ enough))
  | inr short ↦ rw short (refill-Filled n a (next_chunk a.reader) refl lt (fill-Filled n))
]

give-none : (p : List ℕ) (a : AsciiChunkedReader) → (give p a).0 ≡ none → p ≡ []
give-none [] a e = refl
give-none (b ∷ bs) a e = absurd (cc e)

pub next_ascii_chunk-none : (a : AsciiChunkedReader) → (next_ascii_chunk a).0 ≡ none → untold a ≡ []
unfolding next_ascii_chunk normalize_to_crlf
next_ascii_chunk-none a e =
    let full = fill (suc (length a.reader.rest)) a in
    let f = fill-Filled (suc (length a.reader.rest)) a (omega (arith, length_rest a.reader)) in
    let p = give-none full.pending_output full e in
    let ends : unread full.reader ≡ [] = elim f.1 [
      | inl many ↦ absurd (omega (arith, ap length p, many))
      | inr done ↦ done
    ] in
    sym f.0 ∙ rw (p, ends) refl

give-some :
    (p : List ℕ) (a : AsciiChunkedReader) (chunk : List ℕ)
    → p ≡ a.pending_output
    → (give p a).0 ≡ some chunk
    → (0 < length chunk) × (length chunk ≤ 1024) × (untold a ≡ chunk ++ untold (give p a).1)
give-some [] a chunk same e = absurd (cc e)
give-some (b ∷ bs) a chunk same e =
    let got : take 1024 (b ∷ bs) ≡ chunk = some-injective (take 1024 (b ∷ bs)) chunk e in
    let more = (normalize_to_crlf (unread a.reader) a.translator.0).0 in
    (
      omega (arith, length-take 1024 (b ∷ bs), ap length got),
      omega (arith, length-take 1024 (b ∷ bs), ap length got),
      ap (λ (l : List ℕ). l ++ more) (sym same ∙ sym (take-append-drop 1024 (b ∷ bs)))
          ∙ append_assoc (take 1024 (b ∷ bs)) (drop 1024 (b ∷ bs)) more
          ∙ ap (λ (l : List ℕ). l ++ (drop 1024 (b ∷ bs) ++ more)) got,
    )

pub next_ascii_chunk-some :
    (a : AsciiChunkedReader) (chunk : List ℕ)
    → (next_ascii_chunk a).0 ≡ some chunk
    → (0 < length chunk)
      × (length chunk ≤ 1024)
      × (untold a ≡ chunk ++ untold (next_ascii_chunk a).1)
unfolding next_ascii_chunk
next_ascii_chunk-some a chunk e =
    let full = fill (suc (length a.reader.rest)) a in
    let f = fill-Filled (suc (length a.reader.rest)) a (omega (arith, length_rest a.reader)) in
    let g = give-some full.pending_output full chunk refl e in (g.0, g.1, sym f.0 ∙ g.2)

-- The reader of ASCII mode.
abbrev pub ascii_reader : Reader
ascii_reader = record {
  S = AsciiChunkedReader;
  is_open = λ a. a.reader.stream_open;
  next = next_ascii_chunk;
  content = untold;
  none_lem = next_ascii_chunk-none;
  some_lem = next_ascii_chunk-some;
}
