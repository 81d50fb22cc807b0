-- ===== src/Tests/Files.antt =====
-- Runs of the file side.
use socket_programming.Base.{
  ℕ, ◌≡◌, ◌≢◌, refl, true, false, List, [], ◌∷◌, ◌++◌, none, some, ltb, arith,
}
use socket_programming.Files.Ascii.{
  encode, normalize_to_crlf, normalize_to_crlf-append, normalize_to_crlf-IsCrlf, IsCrlf, ends_in_cr,
  normalize_to_crlf-normalize_to_crlf,
}
use socket_programming.Files.Reader.{file_reader, next_chunk, readable}
use socket_programming.Files.AsciiReader.{ascii_reader, next_ascii_chunk}
use socket_programming.Files.Transfer.{Transport, send_from_reader}
use socket_programming.Files.Transfer.Complete.{SendsSmall}
use socket_programming.Files.Transfer.Ascii.{
  open_file, open_text, file_reader-Sends, ascii_reader-Sends,
}
use socket_programming.Files.Transfer.Returns.{send_from_reader_returns}

-- "a LF b CR LF c", cut between the CR and its LF.
abbrev front : List ℕ
front = 97 ∷ 10 ∷ 98 ∷ 13 ∷ []

abbrev back : List ℕ
back = 10 ∷ 99 ∷ []

translated :
    normalize_to_crlf (front ++ back) false ≡ (97 ∷ 13 ∷ 10 ∷ 98 ∷ 13 ∷ 10 ∷ 99 ∷ [], false)
unfolding normalize_to_crlf
translated = refl

normalize_to_crlf-append_example : normalize_to_crlf (front ++ back) false ≡ (
  (normalize_to_crlf front false).0 ++ (normalize_to_crlf back (normalize_to_crlf front false).1).0,
  (normalize_to_crlf back (normalize_to_crlf front false).1).1,
)
normalize_to_crlf-append_example = normalize_to_crlf-append front back false

normalize_to_crlf-IsCrlf_example :
    IsCrlf (normalize_to_crlf front false).0 false
    × ((normalize_to_crlf front false).1 ≡ ends_in_cr (normalize_to_crlf front false).0 false)
normalize_to_crlf-IsCrlf_example = normalize_to_crlf-IsCrlf front false

normalize_to_crlf-normalize_to_crlf_example :
    normalize_to_crlf (normalize_to_crlf front false).0 false ≡ normalize_to_crlf front false
normalize_to_crlf-normalize_to_crlf_example = normalize_to_crlf-normalize_to_crlf front false

-- A transport that takes three chunks at most, and is not aborted.
abbrev three : Transport
three = record {
  T = ℕ;
  send_chunk = λ c t. (c.seq, ltb c.seq 3);
  flush = λ t. (t, true);
  aborted = λ t. (t, false);
}

sent_true : (send_from_reader ascii_reader three 10 (open_text (some 3) front) 0).2 ≡ some true
unfolding send_from_reader next_ascii_chunk next_chunk normalize_to_crlf encode
sent_true = refl

file_sent_true : (send_from_reader file_reader three 10 (open_file none front) 0).2 ≡ some true
unfolding send_from_reader next_chunk
file_sent_true = refl

-- A read that fails behind one byte: the transfer returns true, and has sent that byte.
truncated_true : (send_from_reader file_reader three 10 (open_file (some 1) front) 0).2 ≡ some true
unfolding send_from_reader next_chunk
truncated_true = refl

ascii_reader-Sends_example :
    SendsSmall 0
      (send_from_reader ascii_reader three 10 (open_text (some 3) front) 0).1
      (normalize_to_crlf (readable (some 3) front) false).0
ascii_reader-Sends_example = ascii_reader-Sends three 10 (some 3) front 0 sent_true

file_reader-Sends_example :
    SendsSmall 0 (send_from_reader file_reader three 10 (open_file none front) 0).1 front
file_reader-Sends_example = file_reader-Sends three 10 none front 0 file_sent_true

send_from_reader_returns_example :
    (send_from_reader file_reader three 10 (open_file none front) 0).2 ≢ none
send_from_reader_returns_example =
    send_from_reader_returns file_reader three 10 (open_file none front) 0 (omega arith)
