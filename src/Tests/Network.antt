-- ===== src/Tests/Network.antt =====
-- Runs of the receiver at the end of a network.
use socket_programming.Base.{
  ℕ, ◌<◌, ◌≡◌, refl, true, false, List, [], ◌∷◌, All, length, none, set, get_or, ◌≢◌, arith,
}
use socket_programming.Header.{decode_validated_datagram, datagram, serialize_header}
use socket_programming.Endpoint.{same_endpoint}
use socket_programming.Receiver.{Round, Io, Outcome, timed_out, got, receive_all}
use socket_programming.Receiver.Handshake.{Attempt, from_socket}
use socket_programming.Receiver.Delivery.{chunks_from}
use socket_programming.Network.Channel.{Arrives, stream_datagram}
use socket_programming.Network.Delivery.{
  RoundsArrive, AttemptArrives, shaken, receive_all-in_order, handshake-in_order,
}
use socket_programming.Tests.Data.{sample_stream, sample_stream-CanSend, home, stranger}

abbrev round : Outcome → Round
round o = record { aborted = false; outcome = o }

abbrev io_of : List Round → Io
io_of rounds = record { entry_aborted = false; start = 0; pending_aborted = false; rounds = rounds }

abbrev packet : ℕ → List ℕ
packet n = stream_datagram sample_stream 4 n

-- Chunk 1 comes first, then noise and a damaged copy of chunk 0; chunk 0 itself, and then chunk 1 from
-- the buffer.
abbrev calls : List Io
calls =
    io_of (
      round (got home (packet 1))
      ∷ round (got home (1 ∷ 2 ∷ []))
      ∷ round (got home (set (packet 0) 16 9))
      ∷ round (got home (packet 0))
      ∷ [])
    ∷ io_of []
    ∷ io_of (round (got home (packet 0)) ∷ round (timed_out false 9000) ∷ [])
    ∷ []

short_none : decode_validated_datagram (1 ∷ 2 ∷ []) ≡ none
unfolding decode_validated_datagram
short_none = refl

damage : (16 < length (packet 0)) × (get_or (packet 0) 16 0 ≢ 9)
unfolding datagram serialize_header
damage = (omega arith, omega arith)

calls-arrive : All (λ io. RoundsArrive sample_stream (from_socket true true) io.rounds) calls
calls-arrive = (
  (
    (λ a. Arrives.intact 4 1 (sample_stream-CanSend 1 (omega arith))),
    (
      (λ a. Arrives.noise short_none),
      (
        (λ a.
            Arrives.damaged 4 0 16 9 (sample_stream-CanSend 0 (omega arith)) damage.0 (omega arith)
              damage.1),
        ((λ a. Arrives.intact 4 0 (sample_stream-CanSend 0 (omega arith))), tt),
      ),
    ),
  ),
  (tt, (((λ a. Arrives.intact 4 0 (sample_stream-CanSend 0 (omega arith))), (tt, tt)), tt)),
)

receive_all-in_order_example :
    (receive_all calls (from_socket true true)).0
    ≡ chunks_from sample_stream 0 (length (receive_all calls (from_socket true true)).0)
receive_all-in_order_example = receive_all-in_order sample_stream calls (omega arith) calls-arrive

abbrev syn_answers : List Attempt
syn_answers =
    record { aborted = false; send_done = true; outcome = timed_out false 0 }
    ∷ record { aborted = false; send_done = true; outcome = got stranger (9 ∷ []) }
    ∷ record { aborted = false; send_done = true; outcome = got home (packet 0) }
    ∷ []

-- After the handshake, a stranger sends a well-formed chunk of its own, and then the peer sends.
abbrev strange_chunk : List ℕ
strange_chunk = stream_datagram (λ n. (7 ∷ [], false)) 4 1

abbrev later_calls : List Io
later_calls =
    io_of [] ∷ io_of (round (got stranger strange_chunk) ∷ round (got home (packet 1)) ∷ []) ∷ []

answers-arrive : All (λ a. AttemptArrives sample_stream home a.outcome) syn_answers
unfolding same_endpoint
answers-arrive =
    (tt, ((λ e. cc), ((λ e. Arrives.intact 4 0 (sample_stream-CanSend 0 (omega arith))), tt)))

from_stranger : AttemptArrives sample_stream home (got stranger strange_chunk)
unfolding same_endpoint
from_stranger = λ e. cc

handshake-in_order_example :
    (((shaken home syn_answers).peer ≡ home) × ((shaken home syn_answers).peer_known ≡ true))
    × ((receive_all later_calls (shaken home syn_answers)).0
        ≡ chunks_from sample_stream 0
            (length (receive_all later_calls (shaken home syn_answers)).0))
handshake-in_order_example =
    handshake-in_order sample_stream home syn_answers later_calls (omega arith) answers-arrive (
      tt,
      (
        (from_stranger, ((λ a. Arrives.intact 4 1 (sample_stream-CanSend 1 (omega arith))), tt)),
        tt,
      ),
    )
