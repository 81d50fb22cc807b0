-- ===== src/Tests/Data.antt =====
-- The inputs of the tests.
use socket_programming.Base.{ℕ, ◌%◌, ◌^◌, ◌<◌, [], ◌∷◌, ◌==◌, arith}
use socket_programming.Endpoint.{Endpoint}
use socket_programming.Receiver.Buffer.{Slot}
use socket_programming.Network.Channel.{CanSend}

-- A stream of two-byte chunks, of which number 2 is the last.
abbrev pub sample_stream : ℕ → Slot
sample_stream n = (n % 256 ∷ 7 ∷ [], n == 2)

pub sample_stream-CanSend : (n : ℕ) → n < 2 ^ 32 → CanSend sample_stream n
sample_stream-CanSend n lt = record {
  in_range = lt;
  bytes = (omega arith, (omega arith, tt));
  small = omega arith;
}

abbrev pub home : Endpoint
home = record { sin_family = 2; sin_port = 5000; s_addr = 16777343 }

abbrev pub stranger : Endpoint
stranger = record { sin_family = 2; sin_port = 6000; s_addr = 16777343 }
