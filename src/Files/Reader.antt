-- ===== src/Files/Reader.antt =====
-- server/src/filesystem/ChunkedFileReader.cpp and AsciiChunkedReader.cpp. An open `std::ifstream` is
-- the list of bytes that it has not read yet, with the place where its reads begin to fail, if they do:
-- `read` gives as many bytes as are asked for and can be read, and none once a read has failed.
use socket_programming.Base.{
  ℕ, suc, ◌≤◌, ◌<◌, ◌≡◌, refl, sym, ap, ◌∙◌, zero, ◌-◌, Bool, true, false, List, [], ◌∷◌, ◌++◌,
  Option, none, some, length, take, drop, take-append-drop, length-take, if◌then◌else◌, arith,
}
use mathlib.Core.Option.{some-injective}
use socket_programming.Header.{max_payload}

abbrev pub chunk_size : ℕ
chunk_size = max_payload

-- What `nextChunk` returns: `none` is false, `some chunk` is true with the out-parameter.
abbrev pub Next : Type 0 → Type 0
Next S = Option (List ℕ) × S

-- What the transfer needs of a reader, and what it relies on: `content` is what is still to come.
pub record Reader : Type 1 where
  pub S : Type 0
  pub is_open : S → Bool
  pub next : S → Next S
  pub content : S → List ℕ
  pub none_lem : (s : S) → (next s).0 ≡ none → content s ≡ []
  pub some_lem :
      (s : S) (chunk : List ℕ)
      → (next s).0 ≡ some chunk
      → (0 < length chunk) × (length chunk ≤ 1024) × (content s ≡ chunk ++ content (next s).1)

-- The bytes that reads give, where they fail behind a number of bytes.
abbrev pub readable : Option ℕ → List ℕ → List ℕ
readable none bytes = bytes
readable (some n) bytes = take n bytes

-- The place of the failure, seen from `k` bytes further on.
abbrev pub nearer : ℕ → Option ℕ → Option ℕ
nearer k none = none
nearer k (some n) = some (n - k)

pub record ChunkedFileReader : Type 0 where
  pub stream_open : Bool
  pub rest : List ℕ
  pub fails_in : Option ℕ

abbrev pub read_some : List ℕ → ChunkedFileReader → Next ChunkedFileReader
read_some [] r = (none, r)
read_some (b ∷ bs) r = (some (b ∷ bs), r)

-- `ChunkedFileReader::nextChunk`: a stream that is not open reads nothing, and a read that fails gives
-- the bytes in front of the failure, as at the end of the file.
unfoldable pub next_chunk : ChunkedFileReader → Next ChunkedFileReader
next_chunk r =
    if r.stream_open
    then read_some (take chunk_size (readable r.fails_in r.rest))
        (record r { rest = drop chunk_size r.rest; fails_in = nearer chunk_size r.fails_in })
    else (none, r)

abbrev pub unread : ChunkedFileReader → List ℕ
unread r = if r.stream_open then readable r.fails_in r.rest else []

take-nil : (n : ℕ) → take {A = ℕ} n [] ≡ []
take-nil zero = refl
take-nil (suc n) = refl

drop-take : (k n : ℕ) (xs : List ℕ) → drop k (take n xs) ≡ take (n - k) (drop k xs)
drop-take zero n xs = ap (λ m. take m xs) (omega arith)
drop-take (suc k) zero xs =
    let e : 0 ≡ 0 - suc k = omega arith in ap (λ m. take m (drop (suc k) xs)) e
drop-take (suc k) (suc n) [] = sym (take-nil (suc n - suc k))
drop-take (suc k) (suc n) (x ∷ xs) = drop-take k n xs ∙ ap (λ m. take m (drop k xs)) (omega arith)

pub drop-readable :
    (k : ℕ) (f : Option ℕ) (xs : List ℕ)
    → drop k (readable f xs) ≡ readable (nearer k f) (drop k xs)
drop-readable k none xs = refl
drop-readable k (some n) xs = drop-take k n xs

nothing_taken : (n : ℕ) (xs : List ℕ) → take (suc n) xs ≡ [] → xs ≡ []
nothing_taken n [] e = refl
nothing_taken n (x ∷ xs) e = absurd (omega (arith, ap length e))

pub next_chunk-none : (r : ChunkedFileReader) → (next_chunk r).0 ≡ none → unread r ≡ []
unfolding next_chunk
next_chunk-none r e = ground (arith, nothing_taken 1023 (readable r.fails_in r.rest))

read_some_lem :
    (xs : List ℕ) (r : ChunkedFileReader) (chunk : List ℕ)
    → (read_some xs r).0 ≡ some chunk
    → (0 < length chunk) × (chunk ≡ xs)
read_some_lem [] r chunk e = absurd (cc e)
read_some_lem (b ∷ bs) r chunk e =
    let same : b ∷ bs ≡ chunk = some-injective (b ∷ bs) chunk e in
    (rw (sym same) (omega arith), sym same)

pub read_some-state : (xs : List ℕ) (r : ChunkedFileReader) → (read_some xs r).1 ≡ r
read_some-state [] r = refl
read_some-state (b ∷ bs) r = refl

pub next_chunk-some :
    (r : ChunkedFileReader) (chunk : List ℕ)
    → (next_chunk r).0 ≡ some chunk
    → (0 < length chunk) × (length chunk ≤ 1024) × (unread r ≡ chunk ++ unread (next_chunk r).1)
unfolding next_chunk
next_chunk-some r = go r.stream_open r.rest r.fails_in
  where
    go :
        (o : Bool) (rest : List ℕ) (f : Option ℕ) (chunk : List ℕ)
        → let r' : ChunkedFileReader = record { stream_open = o; rest = rest; fails_in = f } in
          (next_chunk r').0 ≡ some chunk
          → (0 < length chunk)
            × (length chunk ≤ 1024)
            × (unread r' ≡ chunk ++ unread (next_chunk r').1)
    go false rest f chunk e = absurd (cc e)
    go true rest f chunk e =
        let r' : ChunkedFileReader = record {
          stream_open = true;
          rest = drop 1024 rest;
          fails_in = nearer 1024 f;
        } in
        let given = readable f rest in
        let got = read_some_lem (take 1024 given) r' chunk e in
        (
          got.0,
          omega (arith, length-take 1024 given, ap length got.1),
          rw (read_some-state (take 1024 given) r', got.1)
              (sym (take-append-drop 1024 given)
                ∙ ap (λ (l : List ℕ). take 1024 given ++ l) (drop-readable 1024 f rest)),
        )

-- The reader of binary mode.
abbrev pub file_reader : Reader
file_reader = record {
  S = ChunkedFileReader;
  is_open = λ r. r.stream_open;
  next = next_chunk;
  content = unread;
  none_lem = next_chunk-none;
  some_lem = next_chunk-some;
}
