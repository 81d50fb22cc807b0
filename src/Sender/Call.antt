-- ===== src/Sender/Call.antt =====
-- `sendChunk` and `flush`.
use socket_programming.Base.{
  ℕ, Bool, true, false, not, List, [], ◌∷◌, ◌++◌, Option, none, some, length, ltb, leb,
  if◌then◌else◌,
}
use socket_programming.Endpoint.{Sent}
use socket_programming.Double.{Double}
use socket_programming.Header.{max_payload}
use socket_programming.Sender.{
  InFlightPacket, RdtSender, SendAnswer, abort_requested, send_data, effective_window_size,
}
use socket_programming.Sender.Poll.{PollIo, Polled, poll}

-- One pass of a loop that polls: the abort predicate, then what the poll reads.
pub record Wait : Type 0 where
  pub aborted : Bool
  pub poll_io : PollIo

pub record ChunkIo : Type 0 where
  pub entry_aborted : Bool
  pub waits : List Wait
  pub send : SendAnswer
  pub last : PollIo

abbrev pub is_empty : List InFlightPacket → Bool
is_empty [] = true
is_empty (p ∷ w) = false

-- The new packet, last in the window.
abbrev pub in_flight : ℕ → List ℕ → Bool → ℕ → InFlightPacket
in_flight seq payload is_final time = record {
  seq_num = seq;
  payload = payload;
  is_final = is_final;
  sent_time = time;
  acked = false;
  retransmitted = false;
  retries = 0;
}

module _ (f : Double) where
  open f use {D}

  -- The state, what is sent, and the return value; `none` while the loop still waits for the network.
  abbrev pub Sending : Type 0
  Sending = RdtSender D × List Sent × Option Bool

  abbrev pub after_poll : Polled f → (RdtSender D → Sending) → Sending
  after_poll (s, sent, false) rest = (s, sent, some false)
  after_poll (s, sent, true) rest = let (t, more, result) = rest s in (t, sent ++ more, result)

  -- `while (window.size() >= effectiveWindowSize())`, then the rest of the call.
  unfoldable pub wait_for_room : List Wait → (RdtSender D → Sending) → RdtSender D → Sending
  wait_for_room [] rest s =
      if leb (effective_window_size f s.cwnd) (length s.window) then (s, [], none) else rest s
  wait_for_room (w ∷ ws) rest s =
      let again = wait_for_room ws rest in
      if not (leb (effective_window_size f s.cwnd) (length s.window))
      then rest s
      else if abort_requested s.abortable w.aborted
      then (s, [], some false)
      else after_poll (poll f w.poll_io s) again

  abbrev pub finish_poll : Polled f → Sending
  finish_poll (s, sent, done) = (s, sent, some done)

  abbrev pub sent_new : ChunkIo → ℕ → List ℕ → Bool → RdtSender D → List Sent × Option ℕ → Sending
  sent_new io seq payload is_final s (out, none) = (s, out, some false)
  sent_new io seq payload is_final s (out, some time) =
      after_poll
        (record s { window = s.window ++ in_flight seq payload is_final time ∷ [] }, out, true)
        λ t. finish_poll (poll f io.last t)

  unfoldable pub push_chunk : ChunkIo → ℕ → List ℕ → Bool → RdtSender D → Sending
  push_chunk io seq payload is_final s =
      sent_new io seq payload is_final s
        (send_data s.dest (effective_window_size f s.cwnd) seq is_final payload io.send)

  -- `sendChunk`
  unfoldable pub send_chunk : ChunkIo → ℕ → List ℕ → Bool → RdtSender D → Sending
  send_chunk io seq payload is_final s =
      if abort_requested s.abortable io.entry_aborted
      then (s, [], some false)
      else if ltb max_payload (length payload)
      then (s, [], some false)
      else wait_for_room io.waits (push_chunk io seq payload is_final) s

  -- `flush`
  unfoldable pub flush : List Wait → RdtSender D → Sending
  flush [] s = if is_empty s.window then (s, [], some true) else (s, [], none)
  flush (w ∷ ws) s =
      let again = flush ws in
      if is_empty s.window
      then (s, [], some true)
      else if abort_requested s.abortable w.aborted
      then (s, [], some false)
      else after_poll (poll f w.poll_io s) again
