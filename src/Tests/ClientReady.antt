-- ===== src/Tests/ClientReady.antt =====
-- Runs of `waitForClientReady`.
use socket_programming.Base.{◌≡◌, ◌≢◌, refl, true, false, List, [], ◌∷◌, none, some, arith}
use socket_programming.Checksum.{internet_checksum}
use socket_programming.Header.{
  datagram, serialize_header, deserialize_header, with_checksum, decode_validated_datagram,
  header_only_control,
}
use socket_programming.Receiver.Handshake.{syn_header}
use socket_programming.Sender.ClientReady.{
  Attempt, Knock, wait_for_client_ready, Captured, wait_for_client_ready-Captured,
  wait_for_client_ready_returns,
}
use socket_programming.Tests.Data.{home, stranger}

abbrev attempts : List Attempt
attempts =
    record { aborted = false; knock = Knock.timed_out false }
    ∷ record { aborted = false; knock = Knock.got stranger (7 ∷ []) true }
    ∷ record { aborted = false; knock = Knock.got home (datagram syn_header []) true }
    ∷ []

captured_true : (wait_for_client_ready false attempts false stranger).2 ≡ some true
unfolding wait_for_client_ready decode_validated_datagram datagram serialize_header
    deserialize_header with_checksum header_only_control internet_checksum
captured_true = refl

wait_for_client_ready-Captured_example :
    Captured attempts (wait_for_client_ready false attempts false stranger)
wait_for_client_ready-Captured_example =
    wait_for_client_ready-Captured false attempts false stranger captured_true

abbrev quiet : Attempt
quiet = record { aborted = false; knock = Knock.timed_out false }

abbrev ten : List Attempt
ten =
    quiet
    ∷ quiet
    ∷ quiet
    ∷ quiet
    ∷ quiet
    ∷ quiet
    ∷ quiet
    ∷ quiet
    ∷ quiet
    ∷ record { aborted = false; knock = Knock.got home (datagram syn_header []) true }
    ∷ []

wait_for_client_ready_returns_example : (wait_for_client_ready false ten true home).2 ≢ none
wait_for_client_ready_returns_example =
    wait_for_client_ready_returns false ten true home (omega arith)
