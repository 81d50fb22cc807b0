-- ===== src/Sender/Wire.antt =====
-- The datagrams that the sender builds: what the decoder reads back from them.
use socket_programming.Base.{
  ℕ, ◌^◌, ◌≤◌, ◌<◌, ◌≡◌, refl, ap₂, Bool, true, false, List, [], ◌∷◌, ◌++◌, some, length, take,
  take-all, All, All-append, inl, ◌⊎◌, arith,
}
use socket_programming.Endpoint.{Endpoint}
use socket_programming.Checksum.Sum.{IsByte}
use socket_programming.Header.{
  RdtHeader, has_flag, flag_data, flag_fin, serialize_header, header_only_control,
  decode_validated_datagram, with_checksum, datagram,
}
use socket_programming.Header.RoundTrip.{
  IsHeader, IsBuilt, decode-datagram, serialize_header-bytes, with_checksum-IsHeader,
}
use socket_programming.Receiver.{slot_of, payload_of}
use socket_programming.Sender.{SendAnswer, data_header, send_raw_packet, send_data}

-- The DATA datagram of a chunk, at an effective window of `win`.
abbrev pub data_datagram : ℕ → ℕ → Bool → List ℕ → List ℕ
data_datagram win seq is_final payload = datagram (data_header win seq is_final payload) payload

data_header-flags :
    (win seq : ℕ) (is_final : Bool) (payload : List ℕ)
    → (has_flag (data_header win seq is_final payload).flags flag_data ≡ true)
      × (has_flag (data_header win seq is_final payload).flags flag_fin ≡ is_final)
      × ((data_header win seq is_final payload).flags < 256)
unfolding data_header
data_header-flags win seq true payload = (refl, refl, omega arith)
data_header-flags win seq false payload = (refl, refl, omega arith)

data_header-control :
    (win seq : ℕ) (is_final : Bool) (payload : List ℕ)
    → header_only_control (data_header win seq is_final payload) ≡ false
unfolding data_header header_only_control
data_header-control win seq true payload = refl
data_header-control win seq false payload = refl

data_header-IsBuilt :
    (win seq : ℕ) (is_final : Bool) (payload : List ℕ)
    → seq < 2 ^ 32
    → All IsByte payload
    → length payload ≤ 1024
    → IsBuilt (data_header win seq is_final payload) payload
data_header-IsBuilt win seq is_final payload lt bytes small = record {
  header = fields (data_header-flags win seq is_final payload).2;
  bytes = bytes;
  small = small;
  counted = unfold data_header in omega arith;
  control = inl (data_header-control win seq is_final payload);
}
  where
    fields :
        (data_header win seq is_final payload).flags < 256
        → IsHeader (data_header win seq is_final payload)
    fields h = unfold data_header in omega (arith, h)

payload_of-datagram :
    (h k : RdtHeader) (payload : List ℕ)
    → k.payload_len ≡ length payload
    → payload_of k (datagram h payload) ≡ payload
unfolding datagram serialize_header
payload_of-datagram h k payload e = rw e (take-all (length payload) payload (omega arith))

-- A DATA datagram decodes to a DATA header with its number, and the receiver takes from it the
-- chunk and the FIN flag that went in.
pub decode-data_datagram :
    (win seq : ℕ) (is_final : Bool) (payload : List ℕ)
    → seq < 2 ^ 32
    → All IsByte payload
    → length payload ≤ 1024
    → (h : RdtHeader) × (decode_validated_datagram (data_datagram win seq is_final payload)
        ≡ some h)
      × (has_flag h.flags flag_data ≡ true)
      × (h.seq_num ≡ seq)
      × (slot_of h (data_datagram win seq is_final payload) ≡ (payload, is_final))
decode-data_datagram win seq is_final payload lt bytes small = (
  with_checksum h payload,
  decode-datagram h payload (data_header-IsBuilt win seq is_final payload lt bytes small),
  unfold with_checksum in flags.0,
  unfold with_checksum data_header in refl,
  ap₂ {C = List ℕ × Bool} (λ (p : List ℕ) (b : Bool). (p, b))
      (payload_of-datagram h (with_checksum h payload) payload
        (unfold with_checksum data_header in omega arith))
      (unfold with_checksum in flags.1),
)
  where
    h : RdtHeader
    h = data_header win seq is_final payload

    flags :
        (has_flag h.flags flag_data ≡ true)
        × (has_flag h.flags flag_fin ≡ is_final)
        × (h.flags < 256)
    flags = data_header-flags win seq is_final payload

send_raw_packet_lem :
    (dest : Endpoint) (h : RdtHeader) (payload : List ℕ) (a : SendAnswer)
    → take h.payload_len payload ≡ payload
    → let out = (send_raw_packet dest h payload a).0 in
      (out ≡ []) ⊎ (out ≡ (dest, serialize_header h ++ payload) ∷ [])
unfolding send_raw_packet
send_raw_packet_lem dest h payload a e = rw e (ground arith)

-- What a send hands to `sendto`: nothing, or the one DATA datagram, to the sender's destination.
pub send_data_lem :
    (dest : Endpoint) (win seq : ℕ) (is_final : Bool) (payload : List ℕ) (a : SendAnswer)
    → length payload ≤ 1024
    → let out = (send_data dest win seq is_final payload a).0 in
      (out ≡ []) ⊎ (out ≡ (dest, data_datagram win seq is_final payload) ∷ [])
unfolding send_data datagram
send_data_lem dest win seq is_final payload a small =
    send_raw_packet_lem dest (with_checksum (data_header win seq is_final payload) payload) payload
      a (take-all _ payload (unfold with_checksum data_header in omega arith))

pub data_datagram-bytes :
    (win seq : ℕ) (is_final : Bool) (payload : List ℕ)
    → seq < 2 ^ 32
    → All IsByte payload
    → length payload ≤ 1024
    → All IsByte (data_datagram win seq is_final payload)
unfolding datagram
data_datagram-bytes win seq is_final payload lt bytes small =
    let h = data_header win seq is_final payload in
    let b = data_header-IsBuilt win seq is_final payload lt bytes small in
    All-append IsByte (serialize_header (with_checksum h payload)) payload
      (serialize_header-bytes (with_checksum h payload)
        (with_checksum-IsHeader h payload b.header bytes small))
      bytes
