-- ===== src/Header/Corruption.antt =====
-- What `decodeValidatedDatagram` lets through: the facts that an accepted datagram meets, and that
-- no datagram with one changed byte is accepted.
use socket_programming.Base.{
  ℕ, ◌+◌, ◌≤◌, ◌<◌, true, List, ◌≡◌, refl, sym, ap, subst, ◌∙◌, ◌≢◌, inl, inr, none, some, length,
  get_or, set, length-set, get_or-set_self, get_or-set_ne, set-set, set_comm, All, All-set,
  Option-cases, ℕ_discrete, arith,
}
use socket_programming.Checksum.{internet_checksum}
use socket_programming.Checksum.Sum.{IsByte}
use socket_programming.Checksum.Detect.{internet_checksum-set-ne}
use socket_programming.Header.{
  RdtHeader, read16, deserialize_header, checksum_bytes, header_only_control,
  decode_validated_datagram,
}

-- What is known of a datagram that the decoder accepts with the header `h`.
pub record IsAccepted (bytes : List ℕ) (h : RdtHeader) : Type 0 where
  pub read : deserialize_header bytes ≡ h
  pub counted : length bytes ≡ 16 + h.payload_len
  pub small : h.payload_len ≤ 1024
  pub control : header_only_control h ≡ true → h.payload_len ≡ 0
  pub sum : internet_checksum (checksum_bytes bytes) ≡ h.checksum

-- The decoder accepts only what passes each of its checks.
pub decode-IsAccepted :
    (bytes : List ℕ) (h : RdtHeader) → decode_validated_datagram bytes ≡ some h → IsAccepted bytes h
unfolding decode_validated_datagram
decode-IsAccepted bytes h e = ground arith

pub checksum-deserialize : (bytes : List ℕ) → (deserialize_header bytes).checksum ≡ read16 bytes 13
unfolding deserialize_header
checksum-deserialize bytes = refl

field_sum :
    (bytes : List ℕ) (h : RdtHeader)
    → IsAccepted bytes h
    → internet_checksum (checksum_bytes bytes) ≡ read16 bytes 13
field_sum bytes h a =
    a.sum ∙ sym (ap (λ (r : RdtHeader). r.checksum) a.read) ∙ checksum-deserialize bytes

-- A byte of the checksum field itself.
field_changed :
    (bytes : List ℕ) (v : ℕ)
    → All IsByte bytes
    → 16 ≤ length bytes
    → v < 256
    → (get_or bytes 13 0 ≢ v → read16 (set bytes 13 v) 13 ≢ read16 bytes 13)
      × (get_or bytes 14 0 ≢ v → read16 (set bytes 14 v) 13 ≢ read16 bytes 13)
field_changed bytes v h len hv = (
  λ ne. omega (
    arith,
    get_or-set_self bytes 13 v 0 (omega arith),
    get_or-set_ne bytes 13 14 v 0 (omega arith),
  ),
  λ ne. omega (
    arith,
    get_or-set_self bytes 14 v 0 (omega arith),
    get_or-set_ne bytes 14 13 v 0 (omega arith),
  ),
)

outside_field :
    (bytes : List ℕ) (i v : ℕ)
    → All IsByte bytes
    → length bytes ≤ 1040
    → i < length bytes
    → v < 256
    → get_or bytes i 0 ≢ v
    → i ≢ 13
    → i ≢ 14
    → internet_checksum (checksum_bytes (set bytes i v)) ≢ internet_checksum (checksum_bytes bytes)
outside_field bytes i v h len hi hv ne n13 n14 =
    rw (set_comm bytes i 13 v 0 n13, set_comm (set bytes 13 0) i 14 v 0 n14)
      (internet_checksum-set-ne (checksum_bytes bytes) i v
        (All-set IsByte _ 14 0 (All-set IsByte bytes 13 0 h (omega arith)) (omega arith))
        (omega (arith, same)) (omega (arith, same)) hv
        (rw
          (
            get_or-set_ne (set bytes 13 0) 14 i 0 0 (λ e. n14 (sym e)),
            get_or-set_ne bytes 13 i 0 0 (λ e. n13 (sym e)),
          )
          ne))
  where
    same : length (checksum_bytes bytes) ≡ length bytes
    same = length-set (set bytes 13 0) 14 0 ∙ length-set bytes 13 0

read16_outside :
    (bytes : List ℕ) (i v : ℕ) → i ≢ 13 → i ≢ 14 → read16 (set bytes i v) 13 ≡ read16 bytes 13
read16_outside bytes i v n13 n14 =
    omega (arith, get_or-set_ne bytes i 13 v 0 n13, get_or-set_ne bytes i 14 v 0 n14)

checksum_bytes-set_13 :
    (bytes : List ℕ) (v : ℕ) → checksum_bytes (set bytes 13 v) ≡ checksum_bytes bytes
checksum_bytes-set_13 bytes v = ap (λ (l : List ℕ). set l 14 0) (set-set bytes 13 v 0)

checksum_bytes-set_14 :
    (bytes : List ℕ) (v : ℕ) → checksum_bytes (set bytes 14 v) ≡ checksum_bytes bytes
checksum_bytes-set_14 bytes v =
    ap (λ (l : List ℕ). set l 14 0) (set_comm bytes 14 13 v 0 (omega arith))
    ∙ set-set (set bytes 13 0) 14 v 0

-- No two headers are accepted for datagrams that differ in one byte.
not_both :
    (bytes : List ℕ) (i v : ℕ) (h h' : RdtHeader)
    → All IsByte bytes
    → i < length bytes
    → v < 256
    → get_or bytes i 0 ≢ v
    → IsAccepted bytes h
    → ¬ IsAccepted (set bytes i v) h'
not_both bytes i v h h' bs hi hv ne a a' = elim (ℕ_discrete i 13) [
  | yes e ↦ (field_changed bytes v bs long hv).0 (subst (λ k. get_or bytes k 0 ≢ v) e ne) (
      sym (field_sum _ h' (subst (λ k. IsAccepted (set bytes k v) h') e a'))
      ∙ ap internet_checksum (checksum_bytes-set_13 bytes v)
      ∙ field_sum bytes h a)
  | no n13 ↦ elim (ℕ_discrete i 14) [
    | yes e ↦ (field_changed bytes v bs long hv).1 (subst (λ k. get_or bytes k 0 ≢ v) e ne) (
        sym (field_sum _ h' (subst (λ k. IsAccepted (set bytes k v) h') e a'))
        ∙ ap internet_checksum (checksum_bytes-set_14 bytes v)
        ∙ field_sum bytes h a)
    | no n14 ↦
        outside_field bytes i v bs (omega (arith, a.counted, a.small)) hi hv ne n13 n14
          (field_sum _ h' a' ∙ read16_outside bytes i v n13 n14 ∙ sym (field_sum bytes h a))
  ]
]
  where
    long : 16 ≤ length bytes
    long = omega (arith, a.counted)

-- A datagram that the decoder accepts is rejected once any one of its bytes has changed.
pub decode-set-none :
    (bytes : List ℕ) (h : RdtHeader) (i v : ℕ)
    → All IsByte bytes
    → decode_validated_datagram bytes ≡ some h
    → i < length bytes
    → v < 256
    → get_or bytes i 0 ≢ v
    → decode_validated_datagram (set bytes i v) ≡ none
decode-set-none bytes h i v bs ok hi hv ne =
    elim (Option-cases (decode_validated_datagram (set bytes i v))) [
      | inl e ↦ e
      | inr (h', e) ↦ absurd (
          not_both bytes i v h h' bs hi hv ne (decode-IsAccepted bytes h ok)
            (decode-IsAccepted (set bytes i v) h' e))
    ]
