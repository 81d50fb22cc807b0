-- ===== src/Sender.antt =====
-- server/src/rdt/RdtSender.h and RdtSender.cpp, with CHAOS_MODE 0: the sending side of the reliable
-- transport, a selective-repeat window with congestion control. What a call reads from outside is
-- its argument: the answers of the abort predicate, of `select`, `recvfrom`, `sendto` and the clock,
-- in the order in which the code asks. Times are nanoseconds of a clock that never runs backwards.
pub mod Poll
pub mod Call
pub mod Rules
pub mod Packets
pub mod Window
pub mod Bounds
pub mod Wire
pub mod ClientReady
pub mod Flush
use socket_programming.Base.{
  ℕ, suc, ◌+◌, ◌-◌, ◌*◌, ◌/◌, ◌%◌, ◌^◌, bit_or, Bool, true, false, not, ◌&&◌, ◌||◌, List, [], ◌∷◌,
  ◌++◌, Option, none, some, length, take, ltb, leb, ◌==◌, if◌then◌else◌,
}
use socket_programming.Endpoint.{Endpoint, same_endpoint, Sent}
use socket_programming.Double.{Double, ℤ, pos, negsuc}
use socket_programming.Header.{
  RdtHeader, has_flag, flag_ack, flag_data, flag_fin, flag_nak, max_payload, rdt_receive_window,
  serialize_header, with_checksum, decode_validated_datagram,
}

abbrev pub min_timeout_ms : ℕ
min_timeout_ms = 50

abbrev pub max_timeout_ms : ℕ
max_timeout_ms = 2000

abbrev pub max_retries : ℕ
max_retries = 10

pub record InFlightPacket : Type 0 where
  pub seq_num : ℕ
  pub payload : List ℕ  -- `data`
  pub is_final : Bool
  pub sent_time : ℕ
  pub acked : Bool
  pub retransmitted : Bool
  pub retries : ℕ

pub record RdtSender (D : Type 0) : Type 0 where
  pub window : List InFlightPacket
  pub timeout_ms : ℕ
  pub estimated_rtt : D
  pub dev_rtt : D
  pub cwnd : D
  pub clean_acks : ℕ
  pub dest : Endpoint
  pub abortable : Bool  -- an abort predicate is set

-- `std::clamp`
abbrev pub clamp : ℕ → ℕ → ℕ → ℕ
clamp lo hi x = if ltb x lo then lo else if ltb hi x then hi else x

-- `std::clamp` on an `int`, with bounds that are not negative
abbrev pub clamp_int : ℕ → ℕ → ℤ → ℕ
clamp_int lo hi (pos n) = clamp lo hi n
clamp_int lo hi (negsuc n) = lo

-- `isAbortRequested`, given what the predicate answers
abbrev pub abort_requested : Bool → Bool → Bool
abort_requested abortable answer = abortable && answer

-- The header of a DATA packet before its checksum is filled in, at an effective window of `win`.
unfoldable pub data_header : ℕ → ℕ → Bool → List ℕ → RdtHeader
data_header win seq is_final payload = record {
  seq_num = seq;
  ack_num = 0;
  flags = bit_or flag_data (if is_final then flag_fin else 0);
  window_size = win % 2 ^ 16;
  payload_len = length payload % 2 ^ 16;
  checksum = 0;
  reserved = 0;
}

-- What `sendto` answers, and the clock just before it.
pub record SendAnswer : Type 0 where
  pub send_done : Bool
  pub time : ℕ

-- `sendRawPacket` of a packet with its checksum: what goes out, and the time of sending, or `none`
-- for the return value false.
unfoldable pub send_raw_packet : Endpoint → RdtHeader → List ℕ → SendAnswer → List Sent × Option ℕ
send_raw_packet dest h payload a =
    if ltb max_payload h.payload_len
    then ([], none)
    else if not a.send_done
    then ([], none)
    else ((dest, serialize_header h ++ take h.payload_len payload) ∷ [], some a.time)

-- A packet built, given its checksum and sent, as `sendChunk` and the retransmission do.
unfoldable pub send_data : Endpoint → ℕ → ℕ → Bool → List ℕ → SendAnswer → List Sent × Option ℕ
unfolding send_raw_packet
send_data dest win seq is_final payload a =
    send_raw_packet dest (with_checksum (data_header win seq is_final payload) payload) payload a

abbrev pub Marked : Type 0
Marked = Option (InFlightPacket × List InFlightPacket)

abbrev pub behind : InFlightPacket → Marked → Marked
behind p none = none
behind p (some (found, rest)) = some (found, p ∷ rest)

-- `for (auto &pkt : window) if (pkt.seq_num == ack_num && !pkt.acked)`: the packet found, and the
-- window with it marked.
unfoldable pub mark_acked : ℕ → List InFlightPacket → Marked
mark_acked n [] = none
mark_acked n (p ∷ w) =
    if p.seq_num == n && not p.acked
    then some (p, record p { acked = true } ∷ w)
    else behind p (mark_acked n w)

-- `while (!window.empty() && window.front().acked) window.pop_front();`
unfoldable pub slide : List InFlightPacket → List InFlightPacket
slide [] = []
slide (p ∷ w) = let rest = slide w in if p.acked then rest else p ∷ w

-- `duration > currentTimeoutMs` of a packet that is not acknowledged
abbrev pub overdue : ℕ → ℕ → InFlightPacket → Bool
overdue timeout now p = not p.acked && ltb timeout ((now - p.sent_time) / 1000000)

module _ (f : Double) where
  open f use {D, of_ℕ, add, sub, mul, div, abs, max, floor_size, ceil_int}

  abbrev pub effective_window_size : D → ℕ
  effective_window_size cwnd = clamp 1 rdt_receive_window (floor_size cwnd)

  unfoldable pub update_rtt : D → RdtSender D → RdtSender D
  update_rtt sample s =
      let dev =
        add (mul (sub (of_ℕ 1) beta) s.dev_rtt) (mul beta (abs (sub sample s.estimated_rtt))) in
      let estimated = add (mul (sub (of_ℕ 1) alpha) s.estimated_rtt) (mul alpha sample) in
      record s {
        dev_rtt = dev;
        estimated_rtt = estimated;
        timeout_ms =
            clamp_int min_timeout_ms max_timeout_ms (ceil_int (add estimated (mul (of_ℕ 4) dev)));
      }
    where
      alpha : D
      alpha = div (of_ℕ 1) (of_ℕ 8)

      beta : D
      beta = div (of_ℕ 1) (of_ℕ 4)

  unfoldable pub apply_congestion_decrease : RdtSender D → RdtSender D
  apply_congestion_decrease s = record s {
    cwnd = max (of_ℕ 1) (div s.cwnd (of_ℕ 2));
    clean_acks = 0;
    timeout_ms = clamp min_timeout_ms max_timeout_ms (s.timeout_ms * 2);
  }

  -- The constructors, over a socket that works: `initial` is `initialTimeoutMs`.
  unfoldable pub new_sender : ℤ → Endpoint → RdtSender D
  new_sender initial dest =
      let timeout = clamp_int min_timeout_ms max_timeout_ms initial in
      record {
        window = [];
        timeout_ms = timeout;
        estimated_rtt = of_ℕ timeout;
        dev_rtt = of_ℕ 0;
        cwnd = of_ℕ 4;
        clean_acks = 0;
        dest = dest;
        abortable = false;
      }
