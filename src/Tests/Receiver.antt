-- ===== src/Tests/Receiver.antt =====
-- Runs of `receiveNext` and of the handshake.
use socket_programming.Base.{◌≢◌, refl, true, false, List, [], ◌∷◌, All, none, inr, arith}
use socket_programming.Receiver.{Receiver, Io, timed_out, got, receive_next}
use socket_programming.Receiver.Buffer.{find}
use socket_programming.Receiver.Held.{Held, AckFor}
use socket_programming.Receiver.InOrder.{AdvancesBy, nil-Faithful, receive_next-AdvancesBy}
use socket_programming.Receiver.Acks.{receive_next-AckFor, receive_next-Held}
use socket_programming.Receiver.Handshake.{Attempt, from_socket, initiate_active_handshake}
use socket_programming.Receiver.Handshake.Attempts.{
  Bounded, initiate_active_handshake-Bounded, initiate_active_handshake_returns,
}
use socket_programming.Network.Channel.{stream_datagram, data_datagram-Faithful}
use socket_programming.Tests.Data.{sample_stream, sample_stream-CanSend, home, stranger}

-- Chunk 4 waits in the buffer, chunk 3 is expected.
abbrev waiting : Receiver
waiting = record {
  out_of_order = (4, (4 ∷ 7 ∷ [], false)) ∷ [];
  expected_seq = 3;
  peer = home;
  peer_known = true;
  pending_datagram = [];
  pending_from = home;
  abortable = true;
  socket_open = true;
  rcv_timeout = 100;
}

abbrev io : Io
io = record {
  entry_aborted = false;
  start = 1000;
  pending_aborted = false;
  rounds =
      record { aborted = false; outcome = timed_out false 1100 }
      ∷ record { aborted = false; outcome = got home (stream_datagram sample_stream 4 5) }
      ∷ record { aborted = false; outcome = got home (stream_datagram sample_stream 4 2) }
      ∷ record { aborted = false; outcome = got home (stream_datagram sample_stream 4 3) }
      ∷ [];
}

receive_next-AckFor_example :
    All (AckFor (receive_next io waiting).state) (receive_next io waiting).sent
receive_next-AckFor_example = receive_next-AckFor io waiting (omega arith)

four-Held : Held 4 waiting
unfolding find
four-Held = inr ((4 ∷ 7 ∷ [], false), refl)

receive_next-Held_example : Held 4 (receive_next io waiting).state
receive_next-Held_example = receive_next-Held io waiting 4 (omega arith) four-Held

receive_next-AdvancesBy_example :
    AdvancesBy sample_stream 3 (receive_next io waiting).state (receive_next io waiting).result
receive_next-AdvancesBy_example =
    receive_next-AdvancesBy sample_stream 3 io waiting
      (
        tt,
        (
          (λ a. data_datagram-Faithful sample_stream 4 5 (sample_stream-CanSend 5 (omega arith))),
          (
            (λ a. data_datagram-Faithful sample_stream 4 2 (sample_stream-CanSend 2 (omega arith))),
            (
              (λ a.
                  data_datagram-Faithful sample_stream 4 3 (sample_stream-CanSend 3 (omega arith))),
              tt,
            ),
          ),
        ),
      )
      refl (omega arith, omega arith, refl, tt) (λ a. nil-Faithful sample_stream) (omega arith)

abbrev answers : List Attempt
answers =
    record { aborted = false; send_done = true; outcome = timed_out false 0 }
    ∷ record { aborted = false; send_done = true; outcome = timed_out false 0 }
    ∷ record { aborted = false; send_done = true; outcome = got stranger [] }
    ∷ record { aborted = false; send_done = true; outcome = got home (1 ∷ []) }
    ∷ record { aborted = false; send_done = true; outcome = timed_out true 0 }
    ∷ record { aborted = false; send_done = true; outcome = timed_out false 0 }
    ∷ record { aborted = false; send_done = true; outcome = timed_out false 0 }
    ∷ record { aborted = false; send_done = true; outcome = timed_out false 0 }
    ∷ record { aborted = false; send_done = true; outcome = timed_out false 0 }
    ∷ record { aborted = false; send_done = true; outcome = timed_out false 0 }
    ∷ []

initiate_active_handshake-Bounded_example :
    Bounded 10 home (initiate_active_handshake false home answers (from_socket true true))
initiate_active_handshake-Bounded_example =
    initiate_active_handshake-Bounded false home answers (from_socket true true)

initiate_active_handshake_returns_example :
    (initiate_active_handshake false home answers (from_socket true true)).result ≢ none
initiate_active_handshake_returns_example =
    initiate_active_handshake_returns false home answers (from_socket true true) (omega arith)
