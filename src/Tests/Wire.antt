-- ===== src/Tests/Wire.antt =====
-- Runs of the checksum and of the header's code.
use socket_programming.Base.{
  ℕ, ◌+◌, ◌%◌, ◌<◌, ◌≡◌, ◌≢◌, ◌⊎◌, inl, get_or, refl, true, List, [], ◌∷◌, All, none, some, set,
  length, arith,
}
use socket_programming.Checksum.{internet_checksum}
use socket_programming.Checksum.Sum.{word_sum, IsByte, internet_checksum_lem}
use socket_programming.Checksum.Detect.{internet_checksum-set-ne}
use socket_programming.Header.{
  RdtHeader, with_checksum, datagram, serialize_header, decode_validated_datagram,
  header_only_control, has_flag, flag_data,
}
use socket_programming.Receiver.{slot_of}
use socket_programming.Sender.Wire.{data_datagram, decode-data_datagram}
use socket_programming.Header.RoundTrip.{IsBuilt, decode-datagram}
use socket_programming.Header.Corruption.{decode-set-none}

abbrev bytes : List ℕ
bytes = 0x12 ∷ 0x34 ∷ 0xff ∷ 0xff ∷ 0x80 ∷ []

bytes-IsByte : All IsByte bytes
bytes-IsByte = omega arith

internet_checksum_lem_example :
    (internet_checksum bytes < 65536)
    × ((internet_checksum bytes + word_sum bytes) % 65535 ≡ 0)
    × ((internet_checksum bytes < 65535) ⊎ (word_sum bytes ≡ 0))
internet_checksum_lem_example = internet_checksum_lem bytes bytes-IsByte (omega arith)

internet_checksum-set-ne_example : internet_checksum (set bytes 4 0x81) ≢ internet_checksum bytes
internet_checksum-set-ne_example =
    internet_checksum-set-ne bytes 4 0x81 bytes-IsByte (omega arith) (omega arith) (omega arith)
      (omega arith)

-- A DATA header with the last chunk of three bytes.
abbrev header : RdtHeader
header = record {
  seq_num = 70000;
  ack_num = 0;
  flags = 12;
  window_size = 4;
  payload_len = 3;
  checksum = 0;
  reserved = 0;
}

abbrev payload : List ℕ
payload = 65 ∷ 66 ∷ 67 ∷ []

header-IsBuilt : IsBuilt header payload
unfolding header_only_control
header-IsBuilt = record {
  header = record {
    seq_num = omega arith;
    ack_num = omega arith;
    flags = omega arith;
    window_size = omega arith;
    payload_len = omega arith;
    checksum = omega arith;
    reserved = omega arith;
  };
  bytes = omega arith;
  small = omega arith;
  counted = refl;
  control = inl refl;
}

decode-datagram_example :
    decode_validated_datagram (datagram header payload) ≡ some (with_checksum header payload)
decode-datagram_example = decode-datagram header payload header-IsBuilt

datagram-facts :
    All IsByte (datagram header payload)
    × (16 < length (datagram header payload))
    × (get_or (datagram header payload) 16 0 ≢ 66)
unfolding datagram serialize_header with_checksum
datagram-facts = (omega arith, omega arith, omega arith)

decode-set-none_example : decode_validated_datagram (set (datagram header payload) 16 66) ≡ none
decode-set-none_example =
    decode-set-none (datagram header payload) (with_checksum header payload) 16 66 datagram-facts.0
      (decode-datagram header payload header-IsBuilt) datagram-facts.1 (omega arith)
      datagram-facts.2

decode-data_datagram_example :
    (h : RdtHeader) × (decode_validated_datagram (data_datagram 4 7 true payload) ≡ some h)
    × (has_flag h.flags flag_data ≡ true)
    × (h.seq_num ≡ 7)
    × (slot_of h (data_datagram 4 7 true payload) ≡ (payload, true))
decode-data_datagram_example =
    decode-data_datagram 4 7 true payload (omega arith) (omega arith) (omega arith)
