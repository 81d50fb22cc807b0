-- ===== src/Receiver/Handshake/Attempts.antt =====
-- The handshake of the active mode: how many datagrams it sends, that it returns, and in what state it
-- leaves the receiver.
use socket_programming.Base.{
  ℕ, zero, suc, ◌≤◌, ◌≡◌, refl, sym, subst, ◌∙◌, Bool, true, false, not, ◌&&◌, ◌||◌, List, [], ◌∷◌,
  none, length, All, ◌≢◌, inl, inr, Bool-cases, Option-cases, ◌==◌, arith,
}
use socket_programming.Endpoint.{Endpoint, same_endpoint}
use socket_programming.Header.{
  RdtHeader, has_flag, flag_data, flag_ack, decode_validated_datagram, datagram,
}
use socket_programming.Receiver.{Receiver, Outcome, timed_out, failed, got, abort_requested}
use socket_programming.Receiver.Buffer.{Slot, Buffered}
use socket_programming.Receiver.Reaction.{Faithful}
use socket_programming.Receiver.InOrder.{Ready}
use socket_programming.Receiver.Handshake.{
  Attempt, Shake, syn_header, answer, answer_header, apply_data_timeout, handshake_loop,
  initiate_active_handshake,
}

-- At most `left` datagrams were sent, each the SYN, to the peer.
abbrev pub Bounded : ℕ → Endpoint → Shake → Type 0
Bounded left peer s = (length s.sent ≤ left) × All (λ x. x ≡ (peer, datagram syn_header [])) s.sent

answer-Bounded :
    (left : ℕ) (r : Receiver) (from : Endpoint) (bytes : List ℕ) (next : Shake)
    → Bounded left r.peer next
    → Bounded left r.peer (answer r from bytes next)
unfolding answer answer_header
answer-Bounded left r from bytes next b = ground (arith, b.0, b.1)

handshake_loop-Bounded :
    (left : ℕ) (attempts : List Attempt) (r : Receiver)
    → Bounded left r.peer (handshake_loop left attempts r)
unfolding handshake_loop
handshake_loop-Bounded zero attempts r = (omega arith, tt)
handshake_loop-Bounded (suc left) [] r = (omega arith, tt)
handshake_loop-Bounded (suc left) (a ∷ rest) r = go a.outcome (handshake_loop-Bounded left rest r)
  where
    go :
        (o : Outcome)
        → Bounded left r.peer (handshake_loop left rest r)
        → Bounded (suc left) r.peer (handshake_loop (suc left) (record a { outcome = o } ∷ rest) r)
    go (timed_out x now) b = ground (arith, b.0, b.1)
    go failed b = ground arith
    go (got from bytes) b =
        ground (arith, answer-Bounded left r from bytes (handshake_loop left rest r) b)

-- The active handshake sends at most ten datagrams, each the same SYN, all to the expected peer,
-- however the network answers.
pub initiate_active_handshake-Bounded :
    (aborted : Bool) (peer : Endpoint) (attempts : List Attempt) (r : Receiver)
    → Bounded 10 peer (initiate_active_handshake aborted peer attempts r)
unfolding initiate_active_handshake
initiate_active_handshake-Bounded aborted peer attempts r = ground (
  arith,
  handshake_loop-Bounded 10 attempts
      (record r { peer = peer; peer_known = true; rcv_timeout = 500 }),
)

answer_returns :
    (r : Receiver) (from : Endpoint) (bytes : List ℕ) (next : Shake)
    → next.result ≢ none
    → (answer r from bytes next).result ≢ none
unfolding answer answer_header
answer_returns r from bytes next h = ground (arith, h)

handshake_loop_returns :
    (left : ℕ) (attempts : List Attempt) (r : Receiver)
    → left ≤ length attempts
    → (handshake_loop left attempts r).result ≢ none
unfolding handshake_loop
handshake_loop_returns zero attempts r h = λ e. cc
handshake_loop_returns (suc left) [] r h = absurd (omega arith)
handshake_loop_returns (suc left) (a ∷ rest) r h =
    go a.outcome (handshake_loop_returns left rest r (omega arith))
  where
    go :
        (o : Outcome)
        → (handshake_loop left rest r).result ≢ none
        → (handshake_loop (suc left) (record a { outcome = o } ∷ rest) r).result ≢ none
    go (timed_out x now) b = ground (arith, b)
    go failed b = ground arith
    go (got from bytes) b =
        ground (arith, answer_returns r from bytes (handshake_loop left rest r) b)

-- Ten answers of the network, timeouts included, are enough for the handshake to return.
pub initiate_active_handshake_returns :
    (aborted : Bool) (peer : Endpoint) (attempts : List Attempt) (r : Receiver)
    → 10 ≤ length attempts
    → (initiate_active_handshake aborted peer attempts r).result ≢ none
unfolding initiate_active_handshake
initiate_active_handshake_returns aborted peer attempts r h = ground (
  arith,
  handshake_loop_returns 10 attempts
      (record r { peer = peer; peer_known = true; rcv_timeout = 500 }) h,
)

-- What comes from the peer is faithful to the stream.
abbrev pub AttemptFaithful : (ℕ → Slot) → Endpoint → Outcome → Type 0
AttemptFaithful stream peer (got from bytes) =
    same_endpoint from peer ≡ true → Faithful stream bytes
AttemptFaithful stream peer (timed_out x now) = Unit {0}
AttemptFaithful stream peer failed = Unit {0}

abbrev pub AttemptsFaithful : (ℕ → Slot) → Endpoint → List Attempt → Type 0
AttemptsFaithful stream peer [] = Unit {0}
AttemptsFaithful stream peer (a ∷ rest) =
    AttemptFaithful stream peer a.outcome × AttemptsFaithful stream peer rest

-- The handshake leaves the stream position alone and listens to the peer.
abbrev Prepared : (ℕ → Slot) → Receiver → Receiver → Type 0
Prepared stream r r' =
    (r'.expected_seq ≡ r.expected_seq)
    × (r'.out_of_order ≡ r.out_of_order)
    × (r'.peer ≡ r.peer)
    × (r'.peer_known ≡ r.peer_known)
    × Faithful stream r'.pending_datagram

module _ (stream : ℕ → Slot) where
  apply-Prepared :
      (r0 r : Receiver) → Prepared stream r0 r → Prepared stream r0 (apply_data_timeout r)
  unfolding apply_data_timeout
  apply-Prepared r0 r p = elim (Bool-cases r.socket_open) [ inl e ↦ simp e p | inr e ↦ simp e p ]

  answer_header-Prepared :
      (r : Receiver) (from : Endpoint) (bytes : List ℕ) (h : RdtHeader) (next : Shake)
      → Faithful stream r.pending_datagram
      → Faithful stream bytes
      → Prepared stream r next.state
      → Prepared stream r (answer_header r from bytes h next).state
  unfolding answer_header
  answer_header-Prepared r from bytes h next p f q =
      elim (Bool-cases (
        has_flag h.flags flag_ack
        && not (has_flag h.flags flag_data)
        && h.payload_len == 0
        && h.ack_num == 0)) [
          | inl e ↦ rw e (apply-Prepared r r (refl, refl, refl, refl, p))
          | inr e ↦ rw e (elim (Bool-cases (has_flag h.flags flag_data)) [
            | inl d ↦ rw d (
                apply-Prepared r (record r { pending_datagram = bytes; pending_from = from })
                  (refl, refl, refl, refl, f))
            | inr d ↦ rw d q
          ])
        ]

  answer-Prepared :
      (r : Receiver) (from : Endpoint) (bytes : List ℕ) (next : Shake)
      → Faithful stream r.pending_datagram
      → (same_endpoint from r.peer ≡ true → Faithful stream bytes)
      → Prepared stream r next.state
      → Prepared stream r (answer r from bytes next).state
  unfolding answer
  answer-Prepared r from bytes next p f q = elim (Bool-cases (same_endpoint from r.peer)) [
    | inr stranger ↦ rw stranger q
    | inl friend ↦ rw friend (elim (Option-cases (decode_validated_datagram bytes)) [
      | inl e ↦ rw e q
      | inr (h, e) ↦ rw e (answer_header-Prepared r from bytes h next p (f friend) q)
    ])
  ]

  handshake_loop-Prepared :
      (left : ℕ) (attempts : List Attempt) (r : Receiver)
      → Faithful stream r.pending_datagram
      → AttemptsFaithful stream r.peer attempts
      → Prepared stream r (handshake_loop left attempts r).state
  unfolding handshake_loop
  handshake_loop-Prepared zero attempts r p f = apply-Prepared r r (refl, refl, refl, refl, p)
  handshake_loop-Prepared (suc left) [] r p f = (refl, refl, refl, refl, p)
  handshake_loop-Prepared (suc left) (a ∷ rest) r p f =
      go a.outcome f.0 (handshake_loop-Prepared left rest r p f.1)
    where
      same : Prepared stream r r
      same = (refl, refl, refl, refl, p)

      go :
          (o : Outcome)
          → AttemptFaithful stream r.peer o
          → Prepared stream r (handshake_loop left rest r).state
          → Prepared stream r (handshake_loop (suc left) (record a { outcome = o } ∷ rest) r).state
      go (timed_out x now) ff b = ground (arith, b, same)
      go failed ff b = ground (arith, same)
      go (got from bytes) ff b =
          ground (arith, same, answer-Prepared r from bytes (handshake_loop left rest r) p ff b)

  Ready_at_start :
      (r r' : Receiver)
      → r.expected_seq ≡ 0
      → r.out_of_order ≡ []
      → Prepared stream r r'
      → Ready stream 0 r' r'
  Ready_at_start r r' e n p = (
    p.0 ∙ e,
    subst (λ m. Buffered stream 0 10 m) (sym (p.1 ∙ n)) tt,
    ((λ k. (k, refl)), λ a. p.4),
  )

  pub initiate_active_handshake-Ready :
      (peer : Endpoint) (attempts : List Attempt) (r : Receiver)
      → r.socket_open ≡ true
      → r.expected_seq ≡ 0
      → r.out_of_order ≡ []
      → Faithful stream r.pending_datagram
      → AttemptsFaithful stream peer attempts
      → let s = initiate_active_handshake false peer attempts r in
        (s.state.peer ≡ peer) × ((s.state.peer_known ≡ true) × Ready stream 0 s.state s.state)
  unfolding initiate_active_handshake
  initiate_active_handshake-Ready peer attempts r open_ e n p f =
      let r' : Receiver = record r { peer = peer; peer_known = true; rcv_timeout = 500 } in
      let q = handshake_loop-Prepared 10 attempts r' p f in
      let going : (not r.socket_open || abort_requested r false) ≡ false = ground (arith, open_) in
      rw going (q.2, (q.3, Ready_at_start r' (handshake_loop 10 attempts r').state e n q))
