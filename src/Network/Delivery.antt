-- ===== src/Network/Delivery.antt =====
-- The receiver at the end of the network.
use socket_programming.Base.{
  ℕ, ◌^◌, ◌<◌, ◌≡◌, refl, subst, inl, inr, true, false, List, [], ◌∷◌, All, length, arith,
}
use socket_programming.Endpoint.{Endpoint, same_endpoint}
use socket_programming.Receiver.{Receiver, Outcome, timed_out, failed, got, Round, Io, receive_all}
use socket_programming.Receiver.Buffer.{Slot}
use socket_programming.Receiver.Reaction.{Admits, RoundFaithful, RoundsFaithful}
use socket_programming.Receiver.InOrder.{nil-Faithful}
use socket_programming.Receiver.Delivery.{chunks_from, receive_all-Delivers}
use socket_programming.Receiver.Handshake.{from_socket, Attempt, initiate_active_handshake}
use socket_programming.Receiver.Handshake.Attempts.{
  AttemptFaithful, AttemptsFaithful, initiate_active_handshake-Ready,
}
use socket_programming.Network.Channel.{Arrives, Arrives-Faithful}

-- From an endpoint that the receiver listens to comes what the network makes of the sender's
-- datagrams; from others, anything.
abbrev pub RoundArrives : (ℕ → Slot) → Receiver → Outcome → Type 0
RoundArrives stream r (got from bytes) = Admits r from → Arrives stream bytes
RoundArrives stream r (timed_out answer now) = Unit {0}
RoundArrives stream r failed = Unit {0}

abbrev pub RoundsArrive : (ℕ → Slot) → Receiver → List Round → Type 0
RoundsArrive stream r [] = Unit {0}
RoundsArrive stream r (round ∷ rest) =
    RoundArrives stream r round.outcome × RoundsArrive stream r rest

module _ (stream : ℕ → Slot) (r : Receiver) where
  one : (o : Outcome) → RoundArrives stream r o → RoundFaithful stream r o
  one (got from bytes) a = λ adm. Arrives-Faithful stream bytes (a adm)
  one (timed_out answer now) a = tt
  one failed a = tt

  all : (rounds : List Round) → RoundsArrive stream r rounds → RoundsFaithful stream r rounds
  all [] a = tt
  all (round ∷ rest) a = (one round.outcome a.0, all rest a.1)

  calls :
      (ios : List Io)
      → All (λ io. RoundsArrive stream r io.rounds) ios
      → All (λ io. RoundsFaithful stream r io.rounds) ios
  calls [] a = tt
  calls (io ∷ ios) a = (all io.rounds a.0, calls ios a.1)

-- A receiver over a fresh socket, whatever the network loses, repeats, reorders, delays or damages:
-- the chunks that its client gets are the first ones of the sender's stream, in order, each once and
-- unchanged.
pub receive_all-in_order :
    (stream : ℕ → Slot) (ios : List Io)
    → length ios < 2 ^ 32
    → All (λ io. RoundsArrive stream (from_socket true true) io.rounds) ios
    → let (chunks, last) = receive_all ios (from_socket true true) in
      chunks ≡ chunks_from stream 0 (length chunks)
unfolding from_socket
receive_all-in_order stream ios lt a =
    (receive_all-Delivers stream 0 ios (from_socket true true) (from_socket true true)
      (calls stream (from_socket true true) ios a)
      (refl, tt, ((λ k. (k, refl)), λ adm. nil-Faithful stream)) (omega arith)).0

-- In the handshake too, what the peer sends is what the network makes of the sender's datagrams.
abbrev pub AttemptArrives : (ℕ → Slot) → Endpoint → Outcome → Type 0
AttemptArrives stream peer (got from bytes) = same_endpoint from peer ≡ true → Arrives stream bytes
AttemptArrives stream peer (timed_out answer now) = Unit {0}
AttemptArrives stream peer failed = Unit {0}

module _ (stream : ℕ → Slot) (peer : Endpoint) where
  answered :
      (attempts : List Attempt)
      → All (λ a. AttemptArrives stream peer a.outcome) attempts
      → AttemptsFaithful stream peer attempts
  answered [] h = tt
  answered (a ∷ rest) h = (go a.outcome h.0, answered rest h.1)
    where
      go : (o : Outcome) → AttemptArrives stream peer o → AttemptFaithful stream peer o
      go (got from bytes) k = λ same. Arrives-Faithful stream bytes (k same)
      go (timed_out answer now) k = tt
      go failed k = tt

-- The receiver over a fresh socket after its handshake.
abbrev pub shaken : Endpoint → List Attempt → Receiver
shaken peer attempts = (initiate_active_handshake false peer attempts (from_socket true true)).state

-- After the handshake too, what comes from the peer is what the network makes of its datagrams, and
-- from other endpoints comes anything.
abbrev pub PeerArrives : (ℕ → Slot) → Endpoint → List Round → Type 0
PeerArrives stream peer [] = Unit {0}
PeerArrives stream peer (round ∷ rest) =
    AttemptArrives stream peer round.outcome × PeerArrives stream peer rest

module _ (stream : ℕ → Slot) (peer : Endpoint) (r : Receiver) (listens : r.peer ≡ peer)
    (known : r.peer_known ≡ true) where
  from_peer : (o : Outcome) → AttemptArrives stream peer o → RoundArrives stream r o
  from_peer (got from bytes) a = λ adm. elim adm [
    | inl unknown ↦ absurd (cc (known, unknown))
    | inr same ↦ a (subst (λ p. same_endpoint from p ≡ true) listens same)
  ]
  from_peer (timed_out answer now) a = tt
  from_peer failed a = tt

  from_peer_all :
      (rounds : List Round) → PeerArrives stream peer rounds → RoundsArrive stream r rounds
  from_peer_all [] a = tt
  from_peer_all (round ∷ rest) a = (from_peer round.outcome a.0, from_peer_all rest a.1)

  from_peer_calls :
      (ios : List Io)
      → All (λ io. PeerArrives stream peer io.rounds) ios
      → All (λ io. RoundsArrive stream r io.rounds) ios
  from_peer_calls [] a = tt
  from_peer_calls (io ∷ ios) a = (from_peer_all io.rounds a.0, from_peer_calls ios a.1)

-- The active mode, where the receiver of a fresh socket starts with the handshake: whatever the network
-- loses, repeats, reorders, delays or damages of the expected peer's datagrams, and whatever comes from
-- other endpoints, in the handshake and behind it, the chunks that the client gets are the first ones of
-- the peer's stream, in order, each once and unchanged; the receiver listens to the peer alone.
pub handshake-in_order :
    (stream : ℕ → Slot) (peer : Endpoint) (attempts : List Attempt) (ios : List Io)
    → length ios < 2 ^ 32
    → All (λ a. AttemptArrives stream peer a.outcome) attempts
    → All (λ io. PeerArrives stream peer io.rounds) ios
    → let (chunks, last) = receive_all ios (shaken peer attempts) in
      (((shaken peer attempts).peer ≡ peer) × ((shaken peer attempts).peer_known ≡ true))
      × (chunks ≡ chunks_from stream 0 (length chunks))
unfolding from_socket
handshake-in_order stream peer attempts ios lt h a =
    let r = from_socket true true in
    let shake = initiate_active_handshake false peer attempts r in
    let q =
      initiate_active_handshake-Ready stream peer attempts r refl refl refl (nil-Faithful stream)
        (answered stream peer attempts h) in
    (
      (q.0, q.1.0),
      (receive_all-Delivers stream 0 ios shake.state shake.state
          (calls stream shake.state ios (from_peer_calls stream peer shake.state q.0 q.1.0 ios a))
          q.1.1 (omega arith)).0,
    )
