-- ===== src/Files/Receive/Whole.antt =====
-- `receiveFile` from its writer's constructor to its destructor: a file is replaced as a whole or not
-- at all.
use socket_programming.Base.{
  ℕ, ◌≡◌, ◌≢◌, refl, sym, Bool, true, false, List, [], Option, none, some,
}
use mathlib.Core.Option.{some-ne-none}
use socket_programming.Files.Writer.{CommitIo, blank, new_writer}
use socket_programming.Files.Receive.{Arrival, Receiving, translate, conclude, receive_file}
use socket_programming.Files.Receive.Saved.{
  bytes_of, Progress, Outcome, leave-Outcome, commit-Outcome, receive_chunks-Progress,
}

conclude-Outcome :
    (d : Option (List ℕ)) (all : List ℕ) (aborted : Bool) (io : CommitIo) (x : Receiving)
    → Progress d all x
    → Outcome d all (conclude aborted io x)
conclude-Outcome d all aborted io (w, none) p =
    ((λ e. absurd (some-ne-none true (sym e))), λ ne. p.0.2)
conclude-Outcome d all aborted io (w, some false) p = leave-Outcome d all w p.0.2
conclude-Outcome d all true io (w, some true) p = leave-Outcome d all w p.0.2
conclude-Outcome d all false io (w, some true) p = commit-Outcome d all io w p.0 (p.1 refl)

receive_file-Outcome :
    (ascii : Bool) (arrivals : List Arrival) (aborted : Bool) (io : CommitIo)
    (path_empty absolute_ok temporary_made opened : Bool) (d : Option (List ℕ))
    → Outcome d (translate ascii (bytes_of arrivals) (false, false)).0 (
        receive_file ascii arrivals aborted io
          (new_writer path_empty absolute_ok temporary_made opened d))
unfolding receive_file new_writer
receive_file-Outcome ascii arrivals aborted io true a t o d = leave-Outcome d _ (blank d) refl
receive_file-Outcome ascii arrivals aborted io false false t o d = leave-Outcome d _ (blank d) refl
receive_file-Outcome ascii arrivals aborted io false true false o d =
    leave-Outcome d _ (blank d) refl
receive_file-Outcome ascii arrivals aborted io false true true false d =
    leave-Outcome d _ (blank d) refl
receive_file-Outcome ascii arrivals aborted io false true true true d =
    conclude-Outcome d _ aborted io _
      (receive_chunks-Progress d ascii arrivals (false, false) _ [] (refl, refl, refl) refl)

-- If `receiveFile` returns true, the destination holds the bytes of the chunks received up to the
-- final one, in ASCII mode translated as one text; whatever the file system answers.
pub receive_file_saves :
    (ascii : Bool) (arrivals : List Arrival) (aborted : Bool) (io : CommitIo)
    (path_empty absolute_ok temporary_made opened : Bool) (d : Option (List ℕ))
    → (receive_file ascii arrivals aborted io
        (new_writer path_empty absolute_ok temporary_made opened d)).1
      ≡ some true
    → (receive_file ascii arrivals aborted io
        (new_writer path_empty absolute_ok temporary_made opened d)).0.destination
      ≡ some (translate ascii (bytes_of arrivals) (false, false)).0
receive_file_saves ascii arrivals aborted io p a t o d =
    (receive_file-Outcome ascii arrivals aborted io p a t o d).0

-- As long as `receiveFile` has not returned true, the destination is what it was before; whatever
-- was received, and wherever an abort or an error of the file system has come.
pub receive_file_keeps :
    (ascii : Bool) (arrivals : List Arrival) (aborted : Bool) (io : CommitIo)
    (path_empty absolute_ok temporary_made opened : Bool) (d : Option (List ℕ))
    → (receive_file ascii arrivals aborted io
        (new_writer path_empty absolute_ok temporary_made opened d)).1
      ≢ some true
    → (receive_file ascii arrivals aborted io
        (new_writer path_empty absolute_ok temporary_made opened d)).0.destination
      ≡ d
receive_file_keeps ascii arrivals aborted io p a t o d =
    (receive_file-Outcome ascii arrivals aborted io p a t o d).1
