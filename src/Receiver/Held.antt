-- ===== src/Receiver/Held.antt =====
-- What one datagram makes the receiver acknowledge, and that the chunks it holds stay held.
use socket_programming.Base.{
  ℕ, ◌+◌, ◌%◌, ◌^◌, ◌<◌, true, List, [], ◌∷◌, none, some, ◌≡◌, refl, ◌⊎◌, inl, inr, All, Bool-cases,
  Option-cases, ltb, leb, ◌==◌, ltb→lt, arith,
}
use socket_programming.Endpoint.{Endpoint, same_endpoint, Sent}
use socket_programming.Header.{RdtHeader, has_flag, flag_data, decode_validated_datagram}
use socket_programming.Receiver.{
  Receiver, Call, Reaction, slot_of, send_ack, accept_data, handle_header, handle_datagram,
}
use socket_programming.Receiver.Buffer.{Slot, find, emplace, find-emplace_self, find-emplace}

-- Chunk `n` has been handed out, or waits in the buffer.
abbrev pub Held : ℕ → Receiver → Type 0
Held n r = (n < r.expected_seq) ⊎ ((slot : Slot) × (find n r.out_of_order ≡ some slot))

abbrev pub Grows : Receiver → Receiver → Type 0
Grows r r' = (n : ℕ) → Held n r → Held n r'

-- `s` acknowledges a chunk that `r` holds.
abbrev pub AckFor : Receiver → Sent → Type 0
AckFor r s = (n : ℕ) × (s ≡ send_ack n s.0) × Held n r

pub AckFor-mono :
    (r r' : Receiver) (ss : List Sent) → Grows r r' → All (AckFor r) ss → All (AckFor r') ss
AckFor-mono r r' [] g a = tt
AckFor-mono r r' (s ∷ ss) g a = ((a.0.0, a.0.1, g a.0.0 a.0.2), AckFor-mono r r' ss g a.1)

abbrev pub SoundReaction : Receiver → Reaction → Type 0
SoundReaction r (r', s, o) = Grows r r' × All (AckFor r') s

abbrev pub SoundCall : Receiver → Call → Type 0
SoundCall r call = Grows r call.state × All (AckFor call.state) call.sent

advance-Grows :
    (r : Receiver)
    → r.expected_seq + 1 < 2 ^ 32
    → Grows r (record r { expected_seq = (r.expected_seq + 1) % 2 ^ 32 })
advance-Grows r lt n (inl p) = inl (omega arith)
advance-Grows r lt n (inr q) = inr q

emplace-Grows :
    (r : Receiver) (k : ℕ) (slot : Slot)
    → Grows r (record r { out_of_order = emplace k slot r.out_of_order })
emplace-Grows r k slot n (inl p) = inl p
emplace-Grows r k slot n (inr (s, e)) = inr (s, find-emplace n k slot s r.out_of_order e)

send_ack_lem : (n : ℕ) (e : Endpoint) → send_ack n e ≡ send_ack n (send_ack n e).0
unfolding send_ack
send_ack_lem n e = refl

accept_data-Sound :
    (r : Receiver) (from : Endpoint) (bytes : List ℕ) (h : RdtHeader)
    → r.expected_seq + 1 < 2 ^ 32
    → SoundReaction r (accept_data r from bytes h)
unfolding accept_data
accept_data-Sound r from bytes h lt = elim (Bool-cases (ltb h.seq_num r.expected_seq)) [
  | inl old ↦
      simp old ((λ n p. p), ((h.seq_num, send_ack_lem h.seq_num from, inl (ltb→lt _ _ old)), tt))
  | inr new ↦ simp new (elim (Bool-cases (leb (r.expected_seq + 10) h.seq_num)) [
    | inl far ↦ simp far ((λ n p. p), tt)
    | inr near ↦ simp near (elim (Bool-cases (h.seq_num == r.expected_seq)) [
      | inl now ↦
          simp now
            (advance-Grows r lt, ((h.seq_num, send_ack_lem h.seq_num from, inl (ground arith)), tt))
      | inr later ↦ simp later (
        emplace-Grows r h.seq_num (slot_of h bytes),
        (
          (
            h.seq_num,
            send_ack_lem h.seq_num from,
            inr (find-emplace_self h.seq_num (slot_of h bytes) r.out_of_order),
          ),
          tt,
        ),
      )
    ])
  ])
]

handle_header-Sound :
    (r : Receiver) (from : Endpoint) (bytes : List ℕ) (h : RdtHeader)
    → r.expected_seq + 1 < 2 ^ 32
    → SoundReaction r (handle_header r from bytes h)
unfolding handle_header
handle_header-Sound r from bytes h lt = elim (Bool-cases (has_flag h.flags flag_data)) [
  | inr other ↦ rw other ((λ n p. p), tt)
  | inl is_data ↦ rw is_data (elim (Bool-cases r.peer_known) [
    | inr unknown ↦
        simp unknown
          (accept_data-Sound (record r { peer = from; peer_known = true }) from bytes h lt)
    | inl known ↦ simp known (elim (Bool-cases (same_endpoint from r.peer)) [
      | inr stranger ↦ rw stranger ((λ n p. p), tt)
      | inl friend ↦ rw friend (accept_data-Sound r from bytes h lt)
    ])
  ])
]

pub handle_datagram-Sound :
    (r : Receiver) (from : Endpoint) (bytes : List ℕ)
    → r.expected_seq + 1 < 2 ^ 32
    → SoundReaction r (handle_datagram r from bytes)
unfolding handle_datagram
handle_datagram-Sound r from bytes lt = elim (Option-cases (decode_validated_datagram bytes)) [
  | inl e ↦ rw (e, handle_datagram) ((λ n p. p), tt)
  | inr (h, e) ↦ rw (e, handle_datagram) (handle_header-Sound r from bytes h lt)
]

-- A reaction that returns no chunk leaves the expected number alone.
abbrev pub Stays : Receiver → Reaction → Type 0
Stays r (r', s, none) = r'.expected_seq ≡ r.expected_seq
Stays r (r', s, some c) = Unit {0}

pub handle_datagram-Stays :
    (r : Receiver) (from : Endpoint) (bytes : List ℕ) → Stays r (handle_datagram r from bytes)
unfolding handle_datagram handle_header accept_data
handle_datagram-Stays r from bytes = ground arith
