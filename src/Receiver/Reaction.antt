-- ===== src/Receiver/Reaction.antt =====
-- One datagram in `receiveNext` against the stream of chunks that the peer sends.
use socket_programming.Base.{
  ℕ, suc, ◌+◌, ◌^◌, ◌<◌, true, false, List, [], ◌∷◌, none, some, ◌≡◌, refl, ◌⊎◌, inl, inr,
  Bool-cases, Option-cases, arith,
}
use socket_programming.Endpoint.{Endpoint, same_endpoint}
use socket_programming.Header.{RdtHeader, has_flag, flag_data, decode_validated_datagram}
use socket_programming.Receiver.{
  Receiver, Outcome, timed_out, failed, got, Round, Reaction, slot_of, accept_data, handle_header,
  handle_datagram,
}
use socket_programming.Receiver.Buffer.{Slot, Buffered, Buffered-emplace}

-- A datagram that the decoder accepts as DATA carries the chunk of its sequence number.
abbrev pub Faithful : (ℕ → Slot) → List ℕ → Type 0
Faithful stream bytes =
    (h : RdtHeader)
    → decode_validated_datagram bytes ≡ some h
    → has_flag h.flags flag_data ≡ true
    → slot_of h bytes ≡ stream h.seq_num

-- The receiver listens to `from`: it has no peer yet, or this is its peer.
abbrev pub Admits : Receiver → Endpoint → Type 0
Admits r from = (r.peer_known ≡ false) ⊎ (same_endpoint from r.peer ≡ true)

-- What the receiver may be handed: anything from other endpoints, and faithful datagrams from those
-- that it listens to.
abbrev pub RoundFaithful : (ℕ → Slot) → Receiver → Outcome → Type 0
RoundFaithful stream r (got from bytes) = Admits r from → Faithful stream bytes
RoundFaithful stream r (timed_out answer now) = Unit {0}
RoundFaithful stream r failed = Unit {0}

abbrev pub RoundsFaithful : (ℕ → Slot) → Receiver → List Round → Type 0
RoundsFaithful stream r [] = Unit {0}
RoundsFaithful stream r (round ∷ rest) =
    RoundFaithful stream r round.outcome × RoundsFaithful stream r rest

-- A known peer stays, and a datagram put aside is faithful if it came from a peer.
abbrev pub Keeps : (ℕ → Slot) → Receiver → Receiver → Type 0
Keeps stream r r' =
    (r.peer_known ≡ true → (r'.peer_known ≡ true) × (r'.peer ≡ r.peer))
    × (Admits r r'.pending_from → Faithful stream r'.pending_datagram)

Admits-back :
    (stream : ℕ → Slot) (r r' : Receiver) (from : Endpoint)
    → Keeps stream r r'
    → Admits r' from
    → Admits r from
Admits-back stream r r' from k a = elim (Bool-cases r.peer_known) [
  | inr unknown ↦ inl unknown
  | inl known ↦ let p = k.0 known in ground (arith, p.0, p.1)
]

-- What a reaction of a receiver that expects `n` has done.
abbrev pub Reacted : (ℕ → Slot) → ℕ → Receiver → Reaction → Type 0
Reacted stream n r (r', s, none) =
    (r'.expected_seq ≡ n) × Buffered stream (suc n) (n + 10) r'.out_of_order × Keeps stream r r'
Reacted stream n r (r', s, some c) =
    (c.seq ≡ n)
    × ((c.payload, c.is_final) ≡ stream n)
    × (r'.expected_seq ≡ n + 1)
    × Buffered stream (suc n) (n + 10) r'.out_of_order
    × Keeps stream r r'

module _ (stream : ℕ → Slot) where
  accept_data-Reacted :
      (r0 r : Receiver) (from : Endpoint) (bytes : List ℕ) (h : RdtHeader)
      → Keeps stream r0 r
      → slot_of h bytes ≡ stream h.seq_num
      → Buffered stream (suc r.expected_seq) (r.expected_seq + 10) r.out_of_order
      → r.expected_seq + 1 < 2 ^ 32
      → Reacted stream r.expected_seq r0 (accept_data r from bytes h)
  unfolding accept_data
  accept_data-Reacted r0 r from bytes h k e b lt = ground (
    arith,
    k,
    e,
    Buffered-emplace stream (suc r.expected_seq) (r.expected_seq + 10) h.seq_num (slot_of h bytes)
        r.out_of_order,
  )

  handle_header-Reacted :
      (r0 r : Receiver) (from : Endpoint) (bytes : List ℕ) (h : RdtHeader)
      → Keeps stream r0 r
      → decode_validated_datagram bytes ≡ some h
      → (Admits r0 from → Faithful stream bytes)
      → Buffered stream (suc r.expected_seq) (r.expected_seq + 10) r.out_of_order
      → r.expected_seq + 1 < 2 ^ 32
      → Reacted stream r.expected_seq r0 (handle_header r from bytes h)
  unfolding handle_header
  handle_header-Reacted r0 r from bytes h k dec f b lt =
      elim (Bool-cases (has_flag h.flags flag_data)) [
        | inr other ↦ rw other (refl, b, k)
        | inl is_data ↦ rw is_data (elim (Bool-cases r.peer_known) [
          | inr unknown ↦ simp unknown (
              accept_data-Reacted r0 (record r { peer = from; peer_known = true }) from bytes h
                ((λ known. cc ((k.0 known).0)), k.1)
                (f (Admits-back stream r0 r from k (inl unknown)) h dec is_data) b lt)
          | inl known ↦ simp known (elim (Bool-cases (same_endpoint from r.peer)) [
            | inr stranger ↦ rw stranger (refl, b, k)
            | inl friend ↦ rw friend (
                accept_data-Reacted r0 r from bytes h k
                  (f (Admits-back stream r0 r from k (inr friend)) h dec is_data) b lt)
          ])
        ])
      ]

  pub handle_datagram-Reacted :
      (r0 r : Receiver) (from : Endpoint) (bytes : List ℕ)
      → Keeps stream r0 r
      → (Admits r0 from → Faithful stream bytes)
      → Buffered stream (suc r.expected_seq) (r.expected_seq + 10) r.out_of_order
      → r.expected_seq + 1 < 2 ^ 32
      → Reacted stream r.expected_seq r0 (handle_datagram r from bytes)
  unfolding handle_datagram
  handle_datagram-Reacted r0 r from bytes k f b lt =
      elim (Option-cases (decode_validated_datagram bytes)) [
        | inl e ↦ rw (e, handle_datagram) (refl, b, k)
        | inr (h, e) ↦ rw (e, handle_datagram) (handle_header-Reacted r0 r from bytes h k e f b lt)
      ]
