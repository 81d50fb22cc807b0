-- ===== src/Receiver/InOrder.antt =====
-- `receiveNext` against the stream of chunks that the peer sends: what is delivered, and in which
-- order, whatever the network loses, repeats, reorders or damages.
use socket_programming.Base.{
  ℕ, suc, ◌+◌, ◌^◌, ◌<◌, List, [], ◌∷◌, none, some, ◌≡◌, refl, sym, subst, inl, inr, Bool-cases,
  Option-cases, arith,
}
use socket_programming.Endpoint.{Endpoint}
use socket_programming.Header.{decode_validated_datagram}
use socket_programming.Receiver.{
  Receiver, Outcome, timed_out, failed, got, Round, Io, Result, delivered, stopped, blocked, Call,
  Reaction, handle_datagram, receive_loop, receive_pending, receive_next, abort_requested, conclude,
  data_idle_timeout_ms, take_buffered,
}
use socket_programming.Receiver.Reaction.{
  Faithful, Admits, RoundFaithful, RoundsFaithful, Keeps, Reacted, handle_datagram-Reacted,
}
use socket_programming.Receiver.Buffer.{
  Slot, find, erase, Buffered, Buffered-find, Buffered-wider, Buffered-erase, Buffered-above,
}

-- What a whole call has done, from a receiver that expects `n`: a chunk that it returns is the n-th
-- of the stream, and is counted; else nothing is.
abbrev pub AdvancesBy : (ℕ → Slot) → ℕ → Receiver → Result → Type 0
AdvancesBy stream n r (delivered c) =
    (c.seq ≡ n)
    × ((c.payload, c.is_final) ≡ stream n)
    × (r.expected_seq ≡ n + 1)
    × Buffered stream (n + 1) (n + 1 + 10) r.out_of_order
AdvancesBy stream n r stopped = (r.expected_seq ≡ n) × Buffered stream n (n + 10) r.out_of_order
AdvancesBy stream n r blocked = (r.expected_seq ≡ n) × Buffered stream n (n + 10) r.out_of_order

abbrev pub Advances : (ℕ → Slot) → ℕ → Receiver → Call → Type 0
Advances stream n r call = Keeps stream r call.state × AdvancesBy stream n call.state call.result

module _ (stream : ℕ → Slot) where
  -- `r` waits for chunk `n`, and does not hold it.
  abbrev Waiting : ℕ → Receiver → Receiver → Type 0
  Waiting n r0 r =
      (r.expected_seq ≡ n) × Buffered stream (suc n) (n + 10) r.out_of_order × Keeps stream r0 r

  idle-Advances :
      (n : ℕ) (r0 r : Receiver)
      → Waiting n r0 r
      → Keeps stream r0 r × ((r.expected_seq ≡ n) × Buffered stream n (n + 10) r.out_of_order)
  idle-Advances n r0 r w = (
    w.2,
    (
      w.0,
      Buffered-wider stream (suc n) (n + 10) n (n + 10) r.out_of_order (omega arith) (omega arith)
          w.1,
    ),
  )

  conclude-Advances :
      (n : ℕ) (r0 : Receiver) (x : Reaction) (rest : Receiver → Call)
      → Reacted stream n r0 x
      → ((r : Receiver) → Waiting n r0 r → Advances stream n r0 (rest r))
      → Advances stream n r0 (conclude x rest)
  conclude-Advances n r0 (r, s, none) rest h go = go r h
  conclude-Advances n r0 (r, s, some c) rest h go = (
    h.4,
    (
      h.0,
      h.1,
      h.2,
      Buffered-wider stream (suc n) (n + 10) (n + 1) (n + 1 + 10) r.out_of_order (omega arith)
          (omega arith) h.3,
    ),
  )

  react :
      (n : ℕ) (r0 r : Receiver) (from : Endpoint) (bytes : List ℕ)
      → Waiting n r0 r
      → (Admits r0 from → Faithful stream bytes)
      → n + 1 < 2 ^ 32
      → Reacted stream n r0 (handle_datagram r from bytes)
  react n r0 r from bytes w f lt =
      subst (λ m. Reacted stream m r0 (handle_datagram r from bytes)) w.0
        (handle_datagram-Reacted stream r0 r from bytes w.2 f (rw w.0 w.1) (rw w.0 lt))

  receive_loop-Advances :
      (n deadline : ℕ) (rounds : List Round) (r0 r : Receiver)
      → RoundsFaithful stream r0 rounds
      → Waiting n r0 r
      → n + 1 < 2 ^ 32
      → Advances stream n r0 (receive_loop deadline rounds r)
  unfolding receive_loop
  receive_loop-Advances n deadline [] r0 r f w lt = idle-Advances n r0 r w
  receive_loop-Advances n deadline (round ∷ rest) r0 r f w lt =
      go round.outcome f.0 (λ r' w'. receive_loop-Advances n deadline rest r0 r' f.1 w' lt)
    where
      go :
          (o : Outcome)
          → RoundFaithful stream r0 o
          → ((r' : Receiver)
              → Waiting n r0 r'
              → Advances stream n r0 (receive_loop deadline rest r'))
          → Advances stream n r0
              (receive_loop deadline (record { aborted = round.aborted; outcome = o } ∷ rest) r)
      go (timed_out answer now) ff ih = ground (arith, idle-Advances n r0 r w, ih r w)
      go failed ff ih = ground (arith, idle-Advances n r0 r w)
      go (got from bytes) ff ih = elim (Bool-cases (abort_requested r round.aborted)) [
        | inl stop ↦ rw stop (idle-Advances n r0 r w)
        | inr on ↦ rw on (
            conclude-Advances n r0 (handle_datagram r from bytes) (receive_loop deadline rest)
              (react n r0 r from bytes w ff lt) ih)
      ]

  pub nil-Faithful : Faithful stream []
  unfolding decode_validated_datagram
  nil-Faithful h e d = cc

  receive_pending-Advances :
      (n : ℕ) (io : Io) (r0 r : Receiver)
      → RoundsFaithful stream r0 io.rounds
      → Waiting n r0 r
      → n + 1 < 2 ^ 32
      → Advances stream n r0 (receive_pending io r)
  unfolding receive_pending
  receive_pending-Advances n io r0 r f w lt = go r.pending_datagram w.2.1
    where
      loop : Receiver → Call
      loop = receive_loop (io.start + data_idle_timeout_ms) io.rounds

      run : (r' : Receiver) → Waiting n r0 r' → Advances stream n r0 (loop r')
      run r' w' = receive_loop-Advances n (io.start + data_idle_timeout_ms) io.rounds r0 r' f w' lt

      go :
          (bytes : List ℕ)
          → (Admits r0 r.pending_from → Faithful stream bytes)
          → Advances stream n r0 (receive_pending io (record r { pending_datagram = bytes }))
      go [] ff = run (record r { pending_datagram = [] }) (w.0, w.1, (w.2.0, ff))
      go (b ∷ bs) ff = elim (Bool-cases (abort_requested r io.pending_aborted)) [
        | inl stop ↦
            rw stop
              (idle-Advances n r0 (record r { pending_datagram = b ∷ bs }) (w.0, w.1, (w.2.0, ff)))
        | inr on ↦
            let cleared : Receiver = record r { pending_datagram = [] } in
            rw on (
              conclude-Advances n r0 (handle_datagram cleared r.pending_from (b ∷ bs)) loop
                (react n r0 cleared r.pending_from (b ∷ bs) (w.0, w.1, (w.2.0, λ _. nil-Faithful))
                  ff lt)
                run)
      ]

  -- A receiver that waits for chunk `n` of the stream, `r0` being the receiver at the start.
  abbrev pub Ready : ℕ → Receiver → Receiver → Type 0
  Ready n r0 r =
      (r.expected_seq ≡ n) × Buffered stream n (n + 10) r.out_of_order × Keeps stream r0 r

  take_buffered-Advances :
      (n : ℕ) (r0 r : Receiver) (slot : Slot)
      → Ready n r0 r
      → slot ≡ stream n
      → n + 1 < 2 ^ 32
      → Advances stream n r0 (take_buffered r slot)
  take_buffered-Advances n r0 r slot w e lt = (
    w.2,
    (
      w.0,
      e,
      omega (arith, w.0),
      Buffered-wider stream (suc n) (n + 10) (n + 1) (n + 1 + 10)
          (erase r.expected_seq r.out_of_order) (omega arith) (omega arith)
          (subst (λ m. Buffered stream (suc n) (n + 10) (erase m r.out_of_order)) (sym w.0)
            (Buffered-erase stream n (n + 10) r.out_of_order w.1)),
    ),
  )

  pub receive_next-Advances :
      (n : ℕ) (io : Io) (r0 r : Receiver)
      → RoundsFaithful stream r0 io.rounds
      → Ready n r0 r
      → n + 1 < 2 ^ 32
      → Advances stream n r0 (receive_next io r)
  unfolding receive_next
  receive_next-Advances n io r0 r f w lt = elim (Bool-cases (abort_requested r io.entry_aborted)) [
    | inl stop ↦ rw stop (w.2, (w.0, w.1))
    | inr on ↦ rw on (elim (Option-cases (find r.expected_seq r.out_of_order)) [
      | inl e ↦ rw e (
          receive_pending-Advances n io r0 r f
            (
              w.0,
              Buffered-above stream n (n + 10) r.out_of_order
                  (subst (λ m. find m r.out_of_order ≡ none) w.0 e) w.1,
              w.2,
            )
            lt)
      | inr (slot, e) ↦ rw e (
          take_buffered-Advances n r0 r slot w
            (Buffered-find stream n (n + 10) n slot r.out_of_order w.1
              (subst (λ m. find m r.out_of_order ≡ some slot) w.0 e)).2
            lt)
    ])
  ]

  -- A receiver that expects chunk `n`, whose buffer and pending datagram are the stream's, is handed
  -- datagrams of which those that it listens to are the stream's. One call hands out chunk `n` and
  -- expects the next, or hands out none and expects `n` still; what it buffers lies in the window of
  -- ten from there and is the stream's.
  pub receive_next-AdvancesBy :
      (n : ℕ) (io : Io) (r : Receiver)
      → RoundsFaithful stream r io.rounds
      → r.expected_seq ≡ n
      → Buffered stream n (n + 10) r.out_of_order
      → (Admits r r.pending_from → Faithful stream r.pending_datagram)
      → n + 1 < 2 ^ 32
      → let call = receive_next io r in AdvancesBy stream n call.state call.result
  receive_next-AdvancesBy n io r f e b p lt =
      (receive_next-Advances n io r r f (e, b, ((λ k. (k, refl)), p)) lt).1
