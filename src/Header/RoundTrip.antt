-- ===== src/Header/RoundTrip.antt =====
-- A datagram that the code builds is one that the code accepts, and reads back as it was built.
use socket_programming.Base.{
  ℕ, ◌+◌, ◌%◌, ◌^◌, ◌≤◌, ◌<◌, false, ap, List, [], ◌++◌, ◌≡◌, refl, ◌⊎◌, some, length, All,
  All-append, arith,
}
use socket_programming.Checksum.{internet_checksum}
use socket_programming.Checksum.Sum.{IsByte, word_sum, word_sum-le, internet_checksum_lem}
use socket_programming.Header.{
  RdtHeader, serialize_header, deserialize_header, checksum_bytes, header_only_control,
  decode_validated_datagram, with_checksum, datagram,
}

-- The widths of the fields.
pub record IsHeader (h : RdtHeader) : Type 0 where
  pub seq_num : h.seq_num < 2 ^ 32
  pub ack_num : h.ack_num < 2 ^ 32
  pub flags : h.flags < 256
  pub window_size : h.window_size < 65536
  pub payload_len : h.payload_len < 65536
  pub checksum : h.checksum < 65536
  pub reserved : h.reserved < 256

pub serialize_header-bytes : (h : RdtHeader) → IsHeader h → All IsByte (serialize_header h)
unfolding serialize_header
serialize_header-bytes h v = omega arith

-- Reading a header back gives its fields, whatever follows it in the buffer.
pub deserialize-serialize :
    (h : RdtHeader) (rest : List ℕ)
    → IsHeader h
    → deserialize_header (serialize_header h ++ rest) ≡ h
unfolding serialize_header deserialize_header
deserialize-serialize h rest v = ground arith

pub length-serialize_header :
    (h : RdtHeader) (payload : List ℕ)
    → length (serialize_header h ++ payload) ≡ 16 + length payload
unfolding serialize_header
length-serialize_header h payload = omega arith

checksum_bytes-serialize :
    (h : RdtHeader) (payload : List ℕ)
    → checksum_bytes (serialize_header h ++ payload)
      ≡ serialize_header (record h { checksum = 0 }) ++ payload
unfolding serialize_header
checksum_bytes-serialize h payload = refl

zeroed-IsHeader : (h : RdtHeader) → IsHeader h → IsHeader (record h { checksum = 0 })
zeroed-IsHeader h v = omega arith

pub with_checksum-IsHeader :
    (h : RdtHeader) (payload : List ℕ)
    → IsHeader h
    → All IsByte payload
    → length payload ≤ 1024
    → IsHeader (with_checksum h payload)
unfolding with_checksum
with_checksum-IsHeader h payload v bytes small = omega (arith, sum.0)
  where
    raw : List ℕ
    raw = serialize_header (record h { checksum = 0 }) ++ payload

    raw-bytes : All IsByte raw
    raw-bytes =
        All-append IsByte (serialize_header (record h { checksum = 0 })) payload
          (serialize_header-bytes (record h { checksum = 0 }) (zeroed-IsHeader h v)) bytes

    sum :
        (internet_checksum raw < 65536)
        × ((internet_checksum raw + word_sum raw) % 65535 ≡ 0)
        × ((internet_checksum raw < 65535) ⊎ (word_sum raw ≡ 0))
    sum = internet_checksum_lem raw raw-bytes (
        omega (
          arith,
          word_sum-le raw raw-bytes,
          length-serialize_header (record h { checksum = 0 }) payload,
        ))

-- What the code may build: its fields have their widths, the payload its length and its limit, and
-- a SYN or ACK without DATA carries no payload.
pub record IsBuilt (h : RdtHeader) (payload : List ℕ) : Type 0 where
  pub header : IsHeader h
  pub bytes : All IsByte payload
  pub small : length payload ≤ 1024
  pub counted : h.payload_len ≡ length payload
  pub control : (header_only_control h ≡ false) ⊎ (payload ≡ [])

-- The checks of the decoder, as facts about the header that it reads.
pub decode-eq_some :
    (bytes : List ℕ) (h : RdtHeader)
    → deserialize_header bytes ≡ h
    → length bytes ≡ 16 + h.payload_len
    → h.payload_len ≤ 1024
    → (header_only_control h ≡ false) ⊎ (h.payload_len ≡ 0)
    → internet_checksum (checksum_bytes bytes) ≡ h.checksum
    → decode_validated_datagram bytes ≡ some h
unfolding decode_validated_datagram
decode-eq_some bytes h read len small control sum = rw read (ground arith)

control_empty : (n : ℕ) (payload : List ℕ) → n ≡ length payload → payload ≡ [] → n ≡ 0
control_empty n payload e empty = omega (arith, ap length empty)

-- Whatever is built by the rules decodes to the header that was built.
pub decode-datagram :
    (h : RdtHeader) (payload : List ℕ)
    → IsBuilt h payload
    → decode_validated_datagram (datagram h payload) ≡ some (with_checksum h payload)
unfolding datagram
decode-datagram h payload b =
    decode-eq_some (serialize_header sealed ++ payload) sealed
      (deserialize-serialize sealed payload
        (with_checksum-IsHeader h payload b.header b.bytes b.small))
      (unfold with_checksum in omega (arith, length-serialize_header sealed payload, b.counted))
      (unfold with_checksum in omega (arith, b.counted, b.small))
      (unfold with_checksum header_only_control in
        ground (arith, b.control, control_empty h.payload_len payload b.counted))
      (rw (checksum_bytes-serialize sealed payload) (unfold with_checksum in refl))
  where
    sealed : RdtHeader
    sealed = with_checksum h payload
