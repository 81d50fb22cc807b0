-- ===== src/Tests/Sender.antt =====
-- Runs of the sender, with `ticks` for its arithmetic.
use socket_programming.Base.{some, ◌≡◌, ℕ, refl, true, false, List, [], ◌∷◌, All, arith}
use socket_programming.Endpoint.{same_endpoint}
use socket_programming.Double.{ticks, ℤ}
use socket_programming.Header.{
  datagram, decode_validated_datagram, deserialize_header, serialize_header, with_checksum,
  header_only_control,
}
use socket_programming.Checksum.{internet_checksum}
use socket_programming.Receiver.{ack_header}
use socket_programming.Sender.{RdtSender, SendAnswer, new_sender, mark_acked, slide, update_rtt}
use socket_programming.Sender.Poll.{
  poll_acks, verdict, take_ack, count_clean_ack, scan, resend, PollIo, quiet, got, poll,
}
use socket_programming.Sender.Call.{Wait, ChunkIo, send_chunk, flush}
use socket_programming.Sender.Window.{IsValid}
use socket_programming.Sender.Bounds.{
  new_sender-IsValid, poll-IsValid, send_chunk-IsValid, flush-IsValid,
}
use socket_programming.Sender.Flush.{flush-empty}
use socket_programming.Network.Emit.{Streams, Emitted, send_chunk-Streams, flush-Streams}
use socket_programming.Tests.Data.{sample_stream, sample_stream-CanSend, home, stranger}

-- Two packets in flight: number 0 is overdue, number 1 is acknowledged.
abbrev two_out : RdtSender ℕ
two_out = record {
  window =
      record {
        seq_num = 0;
        payload = 0 ∷ 7 ∷ [];
        is_final = false;
        sent_time = 1000000;
        acked = false;
        retransmitted = false;
        retries = 0;
      }
      ∷ record {
        seq_num = 1;
        payload = 1 ∷ 7 ∷ [];
        is_final = false;
        sent_time = 2000000;
        acked = true;
        retransmitted = false;
        retries = 0;
      }
      ∷ [];
  timeout_ms = 100;
  estimated_rtt = 100000;
  dev_rtt = 0;
  cwnd = 4000;
  clean_acks = 1;
  dest = home;
  abortable = false;
}

two_out-IsValid : IsValid two_out
two_out-IsValid = (omega arith, omega arith, refl, omega arith)

two_out-Streams : Streams sample_stream home two_out
two_out-Streams = (
  refl,
  (
    (sample_stream-CanSend 0 (omega arith), refl),
    ((sample_stream-CanSend 1 (omega arith), refl), tt),
  ),
)

abbrev sends : SendAnswer
sends = record { send_done = true; time = 300000000 }

-- A stranger's datagram, then nothing; packet 0 is sent again.
abbrev late : PollIo
late = record {
  entry_aborted = false;
  rounds =
      record { aborted = false; ready = got stranger (1 ∷ []) 0 }
      ∷ record { aborted = false; ready = quiet }
      ∷ [];
  now = 300000000;
  scan_aborted = [];
  sends = sends ∷ [];
}

-- The acknowledgement of packet 0.
abbrev acked : PollIo
acked = record {
  entry_aborted = false;
  rounds = record { aborted = false; ready = got home (datagram (ack_header 0) []) 50000000 } ∷ [];
  now = 60000000;
  scan_aborted = [];
  sends = [];
}

abbrev chunk_io : ChunkIo
chunk_io = record { entry_aborted = false; waits = []; send = sends; last = late }

abbrev waits : List Wait
waits =
    record { aborted = false; poll_io = late } ∷ record { aborted = false; poll_io = acked } ∷ []

new_sender-IsValid_example : IsValid (new_sender ticks (ℤ.negsuc 4) home)
new_sender-IsValid_example = new_sender-IsValid ticks (ℤ.negsuc 4) home

poll-IsValid_example : IsValid (poll ticks late two_out).0
poll-IsValid_example = poll-IsValid ticks late two_out two_out-IsValid

send_chunk-IsValid_example : IsValid (send_chunk ticks chunk_io 2 (2 ∷ 7 ∷ []) true two_out).0
send_chunk-IsValid_example =
    send_chunk-IsValid ticks chunk_io 2 (2 ∷ 7 ∷ []) true two_out two_out-IsValid

flush-IsValid_example : IsValid (flush ticks waits two_out).0
flush-IsValid_example = flush-IsValid ticks waits two_out two_out-IsValid

send_chunk-Streams_example :
    Streams sample_stream home (send_chunk ticks chunk_io 2 (2 ∷ 7 ∷ []) true two_out).0
    × All (Emitted sample_stream home) (send_chunk ticks chunk_io 2 (2 ∷ 7 ∷ []) true two_out).1
send_chunk-Streams_example =
    send_chunk-Streams sample_stream home ticks chunk_io 2 (2 ∷ 7 ∷ []) true two_out
      (sample_stream-CanSend 2 (omega arith)) refl two_out-Streams

flush-Streams_example :
    Streams sample_stream home (flush ticks waits two_out).0
    × All (Emitted sample_stream home) (flush ticks waits two_out).1
flush-Streams_example = flush-Streams sample_stream home ticks waits two_out two_out-Streams

-- With packet 0 acknowledged, nothing is left in flight.
abbrev one_wait : List Wait
one_wait = record { aborted = false; poll_io = acked } ∷ []

flushed_true : (flush ticks one_wait two_out).2 ≡ some true
unfolding flush poll poll_acks verdict same_endpoint take_ack mark_acked slide count_clean_ack
    update_rtt scan resend decode_validated_datagram deserialize_header serialize_header datagram
    with_checksum header_only_control internet_checksum ack_header
flushed_true = refl

flush-empty_example : (flush ticks one_wait two_out).0.window ≡ []
flush-empty_example = flush-empty ticks one_wait two_out flushed_true
