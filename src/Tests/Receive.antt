-- ===== src/Tests/Receive.antt =====
-- Runs of `receiveFile`.
use socket_programming.Base.{ℕ, ◌≡◌, ◌≢◌, refl, Bool, true, false, List, [], ◌∷◌, none, some}
use mathlib.Core.Option.{some-injective}
use mathlib.Core.Bool.{false≢true}
use socket_programming.Files.Ascii.{decode}
use socket_programming.Files.Writer.{whole, CommitIo, new_writer, append_chunk, commit}
use socket_programming.Files.Receive.{Arrival, receive_file, translate}
use socket_programming.Files.Receive.Saved.{bytes_of}
use socket_programming.Files.Receive.Whole.{receive_file_saves, receive_file_keeps}

abbrev arrival : ℕ → List ℕ → Bool → Arrival
arrival seq bytes is_final = record {
  aborted = false;
  received = some (record { seq = seq; bytes = bytes; is_final = is_final });
  aborted_after = false;
  written = whole;
}

abbrev two : List Arrival
two = arrival 0 (97 ∷ 13 ∷ []) false ∷ arrival 1 (10 ∷ 98 ∷ 10 ∷ []) true ∷ []

-- The second chunk has a number that is not expected.
abbrev gap : List Arrival
gap = arrival 0 (97 ∷ []) false ∷ arrival 2 (98 ∷ []) true ∷ []

abbrev all_well : CommitIo
all_well = record { flushed = true; closed = true; moved = true }

saved : (receive_file true two false all_well (new_writer false true true true none)).1 ≡ some true
unfolding receive_file new_writer append_chunk commit decode
saved = refl

receive_file_saves_example :
    (receive_file true two false all_well (new_writer false true true true none)).0.destination
    ≡ some (translate true (bytes_of two) (false, false)).0
receive_file_saves_example =
    receive_file_saves true two false all_well false true true true none saved

refused :
    (receive_file true gap false all_well (new_writer false true true true (some (1 ∷ [])))).1
    ≢ some true
unfolding receive_file new_writer append_chunk commit decode
refused e = false≢true (some-injective false true e)

receive_file_keeps_example :
    (receive_file true gap false all_well
      (new_writer false true true true (some (1 ∷ [])))).0.destination
    ≡ some (1 ∷ [])
receive_file_keeps_example =
    receive_file_keeps true gap false all_well false true true true (some (1 ∷ [])) refused
