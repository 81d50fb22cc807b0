-- ===== src/Receiver/Acks.antt =====
-- What an acknowledgement of the receiver means: the chunk is held, in the buffer or handed out, and
-- no later call loses it.
use socket_programming.Base.{
  ℕ, ◌+◌, ◌^◌, ◌<◌, List, [], ◌∷◌, none, some, ◌≡◌, refl, ◌∙◌, inl, inr, All, All-append,
  Bool-cases, Option-cases, ltb, ◌&&◌, arith, ℕ_discrete,
}
use socket_programming.Receiver.{
  Receiver, Outcome, timed_out, failed, got, Round, Io, Call, Reaction, handle_datagram,
  receive_loop, receive_pending, receive_next, abort_requested, conclude, stop,
  data_idle_timeout_ms, take_buffered,
}
use socket_programming.Receiver.Buffer.{Slot, find, find-erase_ne}
use socket_programming.Receiver.Held.{
  Held, Grows, AckFor, AckFor-mono, SoundReaction, SoundCall, handle_datagram-Sound, Stays,
  handle_datagram-Stays,
}

conclude-Sound :
    (r : Receiver) (x : Reaction) (rest : Receiver → Call)
    → SoundReaction r x
    → Stays r x
    → ((r' : Receiver) → r'.expected_seq ≡ r.expected_seq → SoundCall r' (rest r'))
    → SoundCall r (conclude x rest)
conclude-Sound r (r', s, some c) rest h st go = h
conclude-Sound r (r', s, none) rest h st go =
    let g = go r' st in
    (
      λ n p. g.0 n (h.0 n p),
      All-append (AckFor (rest r').state) s (rest r').sent
          (AckFor-mono r' (rest r').state s g.0 h.1) g.1,
    )

receive_loop-Sound :
    (deadline : ℕ) (rounds : List Round) (r : Receiver)
    → r.expected_seq + 1 < 2 ^ 32
    → SoundCall r (receive_loop deadline rounds r)
unfolding receive_loop
receive_loop-Sound deadline [] r lt = ((λ n p. p), tt)
receive_loop-Sound deadline (round ∷ rest) r lt =
    go round.outcome (λ r' e. receive_loop-Sound deadline rest r' (rw e lt))
  where
    idle : SoundCall r (stop r)
    idle = ((λ n p. p), tt)

    go :
        (o : Outcome)
        → ((r' : Receiver)
            → r'.expected_seq ≡ r.expected_seq
            → SoundCall r' (receive_loop deadline rest r'))
        → SoundCall r
            (receive_loop deadline (record { aborted = round.aborted; outcome = o } ∷ rest) r)
    go (timed_out answer now) ih = elim (Bool-cases (abort_requested r round.aborted)) [
      | inl e ↦ rw e idle
      | inr e ↦ rw e (elim (Bool-cases (abort_requested r answer)) [
        | inl e' ↦ rw e' idle
        | inr e' ↦ rw e' (elim (Bool-cases (r.abortable && ltb now deadline)) [
          | inl e2 ↦ rw e2 (ih r refl)
          | inr e2 ↦ rw e2 idle
        ])
      ])
    ]
    go failed ih = elim (Bool-cases (abort_requested r round.aborted)) [
      | inl e ↦ rw e idle
      | inr e ↦ rw e idle
    ]
    go (got from bytes) ih = elim (Bool-cases (abort_requested r round.aborted)) [
      | inl e ↦ rw e idle
      | inr e ↦ rw e (
          conclude-Sound r (handle_datagram r from bytes) (receive_loop deadline rest)
            (handle_datagram-Sound r from bytes lt) (handle_datagram-Stays r from bytes) ih)
    ]

receive_pending-Sound :
    (io : Io) (r : Receiver) → r.expected_seq + 1 < 2 ^ 32 → SoundCall r (receive_pending io r)
unfolding receive_pending
receive_pending-Sound io r lt = go r.pending_datagram
  where
    loop : Receiver → Call
    loop = receive_loop (io.start + data_idle_timeout_ms) io.rounds

    run : (r' : Receiver) → r'.expected_seq ≡ r.expected_seq → SoundCall r' (loop r')
    run r' e = receive_loop-Sound (io.start + data_idle_timeout_ms) io.rounds r' (rw e lt)

    go : (bytes : List ℕ) → SoundCall r (receive_pending io (record r { pending_datagram = bytes }))
    go [] = run (record r { pending_datagram = [] }) refl
    go (b ∷ bs) = elim (Bool-cases (abort_requested r io.pending_aborted)) [
      | inl e ↦ rw e ((λ n p. p), tt)
      | inr e ↦
          let cleared : Receiver = record r { pending_datagram = [] } in
          rw e (
            conclude-Sound cleared (handle_datagram cleared r.pending_from (b ∷ bs)) loop
              (handle_datagram-Sound cleared r.pending_from (b ∷ bs) lt)
              (handle_datagram-Stays cleared r.pending_from (b ∷ bs)) run)
    ]

take_buffered-Grows :
    (r : Receiver) (slot : Slot)
    → r.expected_seq + 1 < 2 ^ 32
    → Grows r (take_buffered r slot).state
take_buffered-Grows r slot lt n (inl p) = inl (omega arith)
take_buffered-Grows r slot lt n (inr (s, e)) = elim (ℕ_discrete n r.expected_seq) [
  | yes here ↦ inl (omega arith)
  | no other ↦ inr (s, find-erase_ne n r.expected_seq r.out_of_order other ∙ e)
]

receive_next-Sound :
    (io : Io) (r : Receiver) → r.expected_seq + 1 < 2 ^ 32 → SoundCall r (receive_next io r)
unfolding receive_next
receive_next-Sound io r lt = elim (Bool-cases (abort_requested r io.entry_aborted)) [
  | inl e ↦ rw e ((λ n p. p), tt)
  | inr e ↦ rw e (elim (Option-cases (find r.expected_seq r.out_of_order)) [
    | inl e' ↦ rw e' (receive_pending-Sound io r lt)
    | inr (slot, e') ↦ rw e' (take_buffered-Grows r slot lt, tt)
  ])
]

-- Whatever a call sends is an acknowledgement of a chunk that, when the call ends, has been handed
-- out or waits in the buffer, as long as the sequence numbers have not wrapped.
pub receive_next-AckFor :
    (io : Io) (r : Receiver)
    → r.expected_seq + 1 < 2 ^ 32
    → let call = receive_next io r in All (AckFor call.state) call.sent
receive_next-AckFor io r lt = (receive_next-Sound io r lt).1

-- A chunk that has been handed out or waits in the buffer before a call still does so after it, as
-- long as the sequence numbers have not wrapped.
pub receive_next-Held :
    (io : Io) (r : Receiver) (n : ℕ)
    → r.expected_seq + 1 < 2 ^ 32
    → Held n r
    → Held n (receive_next io r).state
receive_next-Held io r n lt h = (receive_next-Sound io r lt).0 n h
