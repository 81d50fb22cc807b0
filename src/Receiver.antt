-- ===== src/Receiver.antt =====
-- server/src/rdt/RdtReceiver.h and RdtReceiver.cpp: the receiving side of the reliable transport.
-- What a call reads from outside is its argument: `Io` and `Round` hold the answers of the abort
-- predicate, of the clock and of `recvfrom`, in the order in which the code asks. A list of rounds
-- that ends before the call does leaves the call blocked in `recvfrom`.
pub mod Buffer
pub mod Handshake
pub mod Reaction
pub mod InOrder
pub mod Delivery
pub mod Held
pub mod Acks
use socket_programming.Base.{
  ℕ, ◌+◌, ◌%◌, ◌^◌, Bool, true, false, not, ◌&&◌, List, [], ◌∷◌, ◌++◌, Option, none, some, take,
  drop, ltb, leb, ◌==◌, if◌then◌else◌,
}
use socket_programming.Endpoint.{Endpoint, same_endpoint, Sent}
use socket_programming.Header.{
  RdtHeader, has_flag, flag_ack, flag_data, flag_fin, rdt_receive_window, header_size,
  decode_validated_datagram, datagram,
}
use Buffer.{Slot, find, erase, emplace}

pub record Receiver : Type 0 where
  pub out_of_order : List (ℕ × Slot)
  pub expected_seq : ℕ
  pub peer : Endpoint
  pub peer_known : Bool
  pub pending_datagram : List ℕ
  pub pending_from : Endpoint
  pub abortable : Bool  -- an abort predicate is set
  pub socket_open : Bool  -- `udpSocket != INVALID_SOCKET`
  pub rcv_timeout : ℕ  -- SO_RCVTIMEO of the socket, in ms

-- What `recvfrom` did. After WSAETIMEDOUT the code asks the predicate and the clock.
pub data Outcome : Type 0 where
  timed_out : Bool → ℕ → Outcome
  failed : Outcome
  got : Endpoint → List ℕ → Outcome

pub record Round : Type 0 where
  pub aborted : Bool
  pub outcome : Outcome

pub record Io : Type 0 where
  pub entry_aborted : Bool
  pub start : ℕ  -- the clock at entry, in ms
  pub pending_aborted : Bool  -- asked before the pending datagram is taken
  pub rounds : List Round

pub record Chunk : Type 0 where
  pub seq : ℕ
  pub payload : List ℕ
  pub is_final : Bool

-- `delivered` is the return value true with the out-parameters, `stopped` is false, `blocked` is no
-- return yet.
pub data Result : Type 0 where
  delivered : Chunk → Result
  stopped : Result
  blocked : Result

pub record Call : Type 0 where
  pub state : Receiver
  pub sent : List Sent
  pub result : Result

-- `isAbortRequested`, given what the predicate answers
abbrev pub abort_requested : Receiver → Bool → Bool
abort_requested r answer = r.abortable && answer

unfoldable pub ack_header : ℕ → RdtHeader
ack_header ack_num = record {
  seq_num = 0;
  ack_num = ack_num;
  flags = flag_ack;
  window_size = rdt_receive_window;
  payload_len = 0;
  checksum = 0;
  reserved = 0;
}

-- `sendAck`: what it hands to `sendto`, whose result it ignores
unfoldable pub send_ack : ℕ → Endpoint → Sent
send_ack ack_num client = (client, datagram (ack_header ack_num) [])

abbrev pub payload_of : RdtHeader → List ℕ → List ℕ
payload_of h bytes = take h.payload_len (drop header_size bytes)

abbrev pub slot_of : RdtHeader → List ℕ → Slot
slot_of h bytes = (payload_of h bytes, has_flag h.flags flag_fin)

-- What one datagram leads to: the new state, what is sent, and a chunk if the call returns it.
abbrev pub Reaction : Type 0
Reaction = Receiver × List Sent × Option Chunk

abbrev pub learn_peer : Receiver → Endpoint → Receiver
learn_peer r from = if r.peer_known then r else record r { peer = from; peer_known = true }

-- From `if (header.seq_num < expected_seq)` to the end of the loop's body.
pub accept_data : Receiver → Endpoint → List ℕ → RdtHeader → Reaction
accept_data r from bytes h =
    if ltb h.seq_num r.expected_seq
    then (r, send_ack h.seq_num from ∷ [], none)
    else if leb (r.expected_seq + rdt_receive_window) h.seq_num
    then (r, [], none)
    else if h.seq_num == r.expected_seq
    then (
      record r { expected_seq = (r.expected_seq + 1) % 2 ^ 32 },
      send_ack h.seq_num from ∷ [],
      some (record {
        seq = h.seq_num;
        payload = payload_of h bytes;
        is_final = has_flag h.flags flag_fin;
      }),
    )
    else (
      record r { out_of_order = emplace h.seq_num (slot_of h bytes) r.out_of_order },
      send_ack h.seq_num from ∷ [],
      none,
    )

pub handle_header : Receiver → Endpoint → List ℕ → RdtHeader → Reaction
handle_header r from bytes h =
    if not (has_flag h.flags flag_data)
    then (r, [], none)
    else if r.peer_known && not (same_endpoint from r.peer)
    then (r, [], none)
    else accept_data (learn_peer r from) from bytes h

-- The loop's body, once a datagram is in the buffer.
pub handle_datagram : Receiver → Endpoint → List ℕ → Reaction
handle_datagram r from bytes = elim (decode_validated_datagram bytes) [
  | none ↦ (r, [], none)
  | some h ↦ handle_header r from bytes h
]

abbrev pub stop : Receiver → Call
stop r = record { state = r; sent = []; result = stopped }

abbrev pub after_send : List Sent → Call → Call
after_send s c = record c { sent = s ++ c.sent }

-- A reaction ends the call, or the loop goes on as `rest` says.
abbrev pub conclude : Reaction → (Receiver → Call) → Call
conclude (r, s, some c) rest = record { state = r; sent = s; result = delivered c }
conclude (r, s, none) rest = after_send s (rest r)

pub receive_loop : ℕ → List Round → Receiver → Call
receive_loop deadline [] r = record { state = r; sent = []; result = blocked }
receive_loop deadline (round ∷ rest) r =
    let next = receive_loop deadline rest in
    if abort_requested r round.aborted then stop r else elim round.outcome [
      | timed_out answer now ↦
          if abort_requested r answer
          then stop r
          else if r.abortable && ltb now deadline
          then next r
          else stop r
      | failed ↦ stop r
      | got from bytes ↦ conclude (handle_datagram r from bytes) next
    ]

-- `receiverIdleTimeout` with CHAOS_MODE 0
abbrev pub data_idle_timeout_ms : ℕ
data_idle_timeout_ms = 5000

-- The iteration that takes the pending datagram, if there is one; then the others.
pub receive_pending : Io → Receiver → Call
receive_pending io r =
    let loop = receive_loop (io.start + data_idle_timeout_ms) io.rounds in
    elim r.pending_datagram [
      | [] ↦ loop r
      | b ∷ bs ↦
          if abort_requested r io.pending_aborted
          then stop r
          else conclude
              (handle_datagram (record r { pending_datagram = [] }) r.pending_from (b ∷ bs)) loop
    ]

abbrev pub take_buffered : Receiver → Slot → Call
take_buffered r (payload, is_final) = record {
  state = record r {
    out_of_order = erase r.expected_seq r.out_of_order;
    expected_seq = (r.expected_seq + 1) % 2 ^ 32;
  };
  sent = [];
  result = delivered (record { seq = r.expected_seq; payload = payload; is_final = is_final });
}

-- `receiveNext`
pub receive_next : Io → Receiver → Call
receive_next io r =
    if abort_requested r io.entry_aborted
    then stop r
    else elim (find r.expected_seq r.out_of_order) [
      | some slot ↦ take_buffered r slot
      | none ↦ receive_pending io r
    ]

-- A client that calls `receiveNext` again and again, until a call returns no chunk.
abbrev pub collect : Result → Receiver → List Chunk × Receiver → List Chunk × Receiver
collect (delivered c) r (chunks, last) = (c ∷ chunks, last)
collect stopped r more = ([], r)
collect blocked r more = ([], r)

pub receive_all : List Io → Receiver → List Chunk × Receiver
receive_all [] r = ([], r)
receive_all (io ∷ ios) r =
    let call = receive_next io r in collect call.result call.state (receive_all ios call.state)
