-- ===== src/Header.antt =====
-- shared/protocol/RdtHeader.h and RdtHeader.cpp: the 16-byte header of a datagram on the wire. A
-- buffer of `char` is a list of bytes, numbers below 256; a field is a number, whose width the
-- predicate `IsHeader` of Header/RoundTrip states. `htonl` and `htons` give network byte order.
pub mod RoundTrip
pub mod Corruption
use socket_programming.Base.{
  ℕ, ◌+◌, ◌*◌, ◌/◌, ◌%◌, ◌^◌, bit_and, bit_or, Bool, not, ◌&&◌, ◌||◌, List, [], ◌∷◌, ◌++◌, Option,
  none, some, length, get_or, set, ltb, ◌==◌, if◌then◌else◌,
}
use socket_programming.Checksum.{internet_checksum}

-- shared/protocol/ProtocolConstants.h
abbrev pub max_payload : ℕ
max_payload = 1024

abbrev pub rdt_receive_window : ℕ
rdt_receive_window = 10

abbrev pub header_size : ℕ
header_size = 16

-- `enum RdtFlags`
abbrev pub flag_syn : ℕ
flag_syn = 1

abbrev pub flag_ack : ℕ
flag_ack = 2

abbrev pub flag_fin : ℕ
flag_fin = 4

abbrev pub flag_data : ℕ
flag_data = 8

abbrev pub flag_nak : ℕ
flag_nak = 16

-- `(flags & mask) != 0`
abbrev pub has_flag : ℕ → ℕ → Bool
has_flag flags mask = not (bit_and flags mask == 0)

pub record RdtHeader : Type 0 where
  pub seq_num : ℕ
  pub ack_num : ℕ
  pub flags : ℕ
  pub window_size : ℕ
  pub payload_len : ℕ
  pub checksum : ℕ
  pub reserved : ℕ

-- Byte `k` of a word, counted from the lowest.
abbrev pub byte_of : ℕ → ℕ → ℕ
byte_of x k = x / 256 ^ k % 256

unfoldable pub serialize_header : RdtHeader → List ℕ
serialize_header h =
    byte_of seq_num 3
    ∷ byte_of seq_num 2
    ∷ byte_of seq_num 1
    ∷ byte_of seq_num 0
    ∷ byte_of ack_num 3
    ∷ byte_of ack_num 2
    ∷ byte_of ack_num 1
    ∷ byte_of ack_num 0
    ∷ flags
    ∷ byte_of window_size 1
    ∷ byte_of window_size 0
    ∷ byte_of payload_len 1
    ∷ byte_of payload_len 0
    ∷ byte_of checksum 1
    ∷ byte_of checksum 0
    ∷ reserved
    ∷ []
  where
    open h use {seq_num, ack_num, flags, window_size, payload_len, checksum, reserved}

-- `memcpy(&x, buffer + i, 2); ntohs(x)`, and the same for four bytes.
abbrev pub read16 : List ℕ → ℕ → ℕ
read16 bytes i = get_or bytes i 0 * 256 + get_or bytes (i + 1) 0

abbrev pub read32 : List ℕ → ℕ → ℕ
read32 bytes i = read16 bytes i * 65536 + read16 bytes (i + 2)

unfoldable pub deserialize_header : List ℕ → RdtHeader
deserialize_header bytes = record {
  seq_num = read32 bytes 0;
  ack_num = read32 bytes 4;
  flags = get_or bytes 8 0;
  window_size = read16 bytes 9;
  payload_len = read16 bytes 11;
  checksum = read16 bytes 13;
  reserved = get_or bytes 15 0;
}

-- `checksumBytes`: the datagram with the checksum field set to 0.
abbrev pub checksum_bytes : List ℕ → List ℕ
checksum_bytes bytes = set (set bytes 13 0) 14 0

unfoldable pub header_only_control : RdtHeader → Bool
header_only_control h =
    has_flag h.flags (bit_or flag_syn flag_ack) && not (has_flag h.flags flag_data)

-- The checks that follow the length check.
pub validate : RdtHeader → List ℕ → Option RdtHeader
validate decoded bytes =
    if ltb max_payload decoded.payload_len
      || not (length bytes == header_size + decoded.payload_len)
    then none
    else if header_only_control decoded && not (decoded.payload_len == 0)
    then none
    else if not (internet_checksum (checksum_bytes bytes) == decoded.checksum)
    then none
    else some decoded

-- `decodeValidatedDatagram`: `none` is the return value false, `some h` is true with `h` in `header`.
unfoldable pub decode_validated_datagram : List ℕ → Option RdtHeader
unfolding validate
decode_validated_datagram bytes =
    if ltb (length bytes) header_size || ltb (header_size + max_payload) (length bytes)
    then none
    else validate (deserialize_header bytes) bytes

-- How the code fills in a checksum before it sends: the header is serialized with the field at 0,
-- the sum runs over that and the payload, and the header gets the result.
unfoldable pub with_checksum : RdtHeader → List ℕ → RdtHeader
with_checksum h payload =
    let zeroed = record h { checksum = 0 } in
    record h { checksum = internet_checksum (serialize_header zeroed ++ payload) }

-- The bytes that go to `sendto`.
unfoldable pub datagram : RdtHeader → List ℕ → List ℕ
datagram h payload = serialize_header (with_checksum h payload) ++ payload
