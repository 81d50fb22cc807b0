-- ===== src/Network/Channel.antt =====
-- What the network can hand to the receiver, given the stream of chunks that the sender has.
use socket_programming.Base.{
  ℕ, ◌^◌, ◌≤◌, ◌<◌, ◌≡◌, sym, ap, ◌∙◌, subst, ◌≢◌, false, List, none, some, length, get_or, set,
  All,
}
use mathlib.Core.Option.{some-injective}
use socket_programming.Checksum.Sum.{IsByte}
use socket_programming.Header.{RdtHeader, has_flag, flag_data, decode_validated_datagram}
use socket_programming.Header.Corruption.{decode-set-none}
use socket_programming.Receiver.{slot_of}
use socket_programming.Receiver.Buffer.{Slot}
use socket_programming.Receiver.Reaction.{Faithful}
use socket_programming.Sender.Wire.{data_datagram, decode-data_datagram, data_datagram-bytes}

-- Chunk `seq` of the stream can be sent.
pub record CanSend (stream : ℕ → Slot) (seq : ℕ) : Type 0 where
  pub in_range : seq < 2 ^ 32
  pub bytes : All IsByte (stream seq).0
  pub small : length (stream seq).0 ≤ 1024

abbrev pub stream_datagram : (ℕ → Slot) → ℕ → ℕ → List ℕ
stream_datagram stream win seq = data_datagram win seq (stream seq).1 (stream seq).0

-- A datagram of the sender, the same with one byte changed, one that the decoder refuses, or one
-- with no data.
pub data Arrives (stream : ℕ → Slot) : List ℕ → Type 0 where
  intact : (win seq : ℕ) → CanSend stream seq → Arrives stream (stream_datagram stream win seq)
  damaged :
      (win seq i v : ℕ)
      → CanSend stream seq
      → i < length (stream_datagram stream win seq)
      → v < 256
      → get_or (stream_datagram stream win seq) i 0 ≢ v
      → Arrives stream (set (stream_datagram stream win seq) i v)
  noise : {bytes : List ℕ} → decode_validated_datagram bytes ≡ none → Arrives stream bytes
  control :
      {bytes : List ℕ} (h : RdtHeader)
      → decode_validated_datagram bytes ≡ some h
      → has_flag h.flags flag_data ≡ false
      → Arrives stream bytes

refused-Faithful :
    (stream : ℕ → Slot) (bytes : List ℕ)
    → decode_validated_datagram bytes ≡ none
    → Faithful stream bytes
refused-Faithful stream bytes e h e' d = cc

control-Faithful :
    (stream : ℕ → Slot) (bytes : List ℕ) (k : RdtHeader)
    → decode_validated_datagram bytes ≡ some k
    → has_flag k.flags flag_data ≡ false
    → Faithful stream bytes
control-Faithful stream bytes k e no_data h e' d =
    cc (ap (λ (r : RdtHeader). has_flag r.flags flag_data) (some-injective k h (sym e ∙ e')))

pub data_datagram-Faithful :
    (stream : ℕ → Slot) (win seq : ℕ)
    → CanSend stream seq
    → Faithful stream (stream_datagram stream win seq)
data_datagram-Faithful stream win seq c h e d =
    let r = decode-data_datagram win seq (stream seq).1 (stream seq).0 c.in_range c.bytes c.small in
    subst (λ (x : RdtHeader). slot_of x (stream_datagram stream win seq) ≡ stream x.seq_num)
      (some-injective r.0 h (sym r.1 ∙ e)) (r.4 ∙ ap stream (sym r.3))

pub Arrives-Faithful :
    (stream : ℕ → Slot) (bytes : List ℕ) → Arrives stream bytes → Faithful stream bytes
Arrives-Faithful stream bytes (intact win seq c) = data_datagram-Faithful stream win seq c
Arrives-Faithful stream bytes (damaged win seq i v c hi hv ne) =
    let b = stream_datagram stream win seq in
    let r = decode-data_datagram win seq (stream seq).1 (stream seq).0 c.in_range c.bytes c.small in
    refused-Faithful stream (set b i v) (
      decode-set-none b r.0 i v
        (data_datagram-bytes win seq (stream seq).1 (stream seq).0 c.in_range c.bytes c.small) r.1
        hi hv ne)
Arrives-Faithful stream bytes (noise e) = refused-Faithful stream bytes e
Arrives-Faithful stream bytes (control h e no_data) = control-Faithful stream bytes h e no_data
