-- ===== src/Receiver/Handshake.antt =====
-- server/src/rdt/RdtReceiver.cpp: the constructors, `setAbortPredicate` and `initiateActiveHandshake`.
-- The results of `socket`, `setsockopt` and `bind` are arguments; where the code ignores the result
-- of `setsockopt`, the option is taken to be set.
pub mod Attempts
use socket_programming.Base.{
  ℕ, zero, suc, ◌+◌, ◌≤◌, ◌≡◌, refl, Bool, true, false, not, ◌&&◌, ◌||◌, List, [], ◌∷◌, ◌++◌,
  Option, none, some, length, All, ◌⊎◌, inl, inr, Bool-cases, Option-cases, ◌==◌, if◌then◌else◌,
  arith,
}
use socket_programming.Endpoint.{Endpoint, same_endpoint, Sent}
use socket_programming.Header.{
  RdtHeader, has_flag, flag_syn, flag_ack, flag_data, decode_validated_datagram, datagram,
}
use socket_programming.Receiver.{
  Receiver, Outcome, timed_out, failed, got, abort_requested, data_idle_timeout_ms,
}

abbrev pub handshake_timeout_ms : ℕ
handshake_timeout_ms = 500

abbrev pub handshake_max_retries : ℕ
handshake_max_retries = 10

abbrev pub abort_poll_timeout_ms : ℕ
abort_poll_timeout_ms = 100

abbrev pub no_endpoint : Endpoint
no_endpoint = record { sin_family = 0; sin_port = 0; s_addr = 0 }

-- The member initialisers, with a socket or none.
abbrev pub initial : Bool → ℕ → Receiver
initial socket_open rcv_timeout = record {
  out_of_order = [];
  expected_seq = 0;
  peer = no_endpoint;
  peer_known = false;
  pending_datagram = [];
  pending_from = no_endpoint;
  abortable = false;
  socket_open = socket_open;
  rcv_timeout = rcv_timeout;
}

-- `RdtReceiver(uint16_t listenPort)`
unfoldable pub listening : Bool → Bool → Bool → Receiver
listening socket_made option_set bound =
    if not socket_made
    then initial false 0
    else if not option_set
    then initial false 0
    else if not bound
    then initial false data_idle_timeout_ms
    else initial true data_idle_timeout_ms

-- `RdtReceiver(SOCKET existingSocket)`
unfoldable pub from_socket : Bool → Bool → Receiver
from_socket valid option_set =
    if not valid
    then initial false 0
    else if not option_set
    then initial false 0
    else initial true data_idle_timeout_ms

unfoldable pub apply_data_timeout : Receiver → Receiver
apply_data_timeout r =
    if r.socket_open
    then record r {
      rcv_timeout = if r.abortable then abort_poll_timeout_ms else data_idle_timeout_ms;
    }
    else r

unfoldable pub set_abort_predicate : Bool → Receiver → Receiver
unfolding apply_data_timeout
set_abort_predicate present r = apply_data_timeout (record r { abortable = present })

-- One pass of the handshake's loop: the abort predicate, `sendto`, `recvfrom`.
pub record Attempt : Type 0 where
  pub aborted : Bool
  pub send_done : Bool
  pub outcome : Outcome

-- `none` is no return yet.
pub record Shake : Type 0 where
  pub state : Receiver
  pub sent : List Sent
  pub result : Option Bool

abbrev pub syn_header : RdtHeader
syn_header = record {
  seq_num = 0;
  ack_num = 0;
  flags = flag_syn;
  window_size = 1;
  payload_len = 0;
  checksum = 0;
  reserved = 0;
}

abbrev pub returns : Bool → Receiver → Shake
returns b r = record { state = r; sent = []; result = some b }

abbrev pub after_syn : Receiver → Shake → Shake
after_syn r s = record s { sent = (r.peer, datagram syn_header []) ∷ s.sent }

-- The tests on a header that was read: an acknowledgement of the SYN, a DATA datagram to keep, or
-- another round.
pub answer_header : Receiver → Endpoint → List ℕ → RdtHeader → Shake → Shake
answer_header r from bytes h next =
    if has_flag h.flags flag_ack
      && not (has_flag h.flags flag_data)
      && h.payload_len == 0
      && h.ack_num == 0
    then returns true (apply_data_timeout r)
    else if has_flag h.flags flag_data
    then returns true
        (apply_data_timeout (record r { pending_datagram = bytes; pending_from = from }))
    else next

pub answer : Receiver → Endpoint → List ℕ → Shake → Shake
answer r from bytes next =
    if not (same_endpoint from r.peer) then next else elim (decode_validated_datagram bytes) [
      | none ↦ next
      | some h ↦ answer_header r from bytes h next
    ]

-- The loop, with the attempts that are left.
pub handshake_loop : ℕ → List Attempt → Receiver → Shake
handshake_loop zero attempts r = returns false (apply_data_timeout r)
handshake_loop (suc left) [] r = record { state = r; sent = []; result = none }
handshake_loop (suc left) (a ∷ rest) r =
    let next = handshake_loop left rest r in
    if abort_requested r a.aborted
    then returns false r
    else if not a.send_done
    then returns false r
    else after_syn r (elim a.outcome [
      | timed_out aborted now ↦ if abort_requested r aborted then returns false r else next
      | failed ↦ returns false r
      | got from bytes ↦ answer r from bytes next
    ])

-- `initiateActiveHandshake`
pub initiate_active_handshake : Bool → Endpoint → List Attempt → Receiver → Shake
initiate_active_handshake aborted expected_peer attempts r =
    if not r.socket_open || abort_requested r aborted
    then returns false r
    else handshake_loop handshake_max_retries attempts
        (record r { peer = expected_peer; peer_known = true; rcv_timeout = handshake_timeout_ms })
