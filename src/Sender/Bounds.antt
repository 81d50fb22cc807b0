-- ===== src/Sender/Bounds.antt =====
-- `pollAcksAndRetransmit`, `sendChunk` and `flush` keep the sender's invariant, whatever the network,
-- the clock and the abort predicate answer.
use socket_programming.Base.{
  ℕ, ◌≤◌, ◌≡◌, refl, Bool, true, false, List, [], ◌∷◌, ◌++◌, none, some, length, All, All-append,
  length-append, arith,
}
use socket_programming.Endpoint.{Endpoint, Sent}
use socket_programming.Double.{Double, ℤ}
use socket_programming.Sender.{
  InFlightPacket, RdtSender, mark_acked, Marked, effective_window_size, update_rtt,
  apply_congestion_decrease, new_sender,
}
use socket_programming.Sender.Poll.{
  PollIo, resend, count_clean_ack, take_marked, take_ack, retransmit, poll,
}
use socket_programming.Sender.Call.{Wait, ChunkIo, in_flight, send_chunk, flush}
use socket_programming.Sender.Rules.{PushKeeps, poll_rule, send_chunk_rule, flush_rule}
use socket_programming.Sender.Packets.{MarkedAll, mark_acked-All, slide-All, resend-All}
use socket_programming.Sender.Window.{
  PacketOk, FrontOpen, TimeoutOk, IsValid, SameLength, mark_acked-SameLength, slide-FrontOpen,
  resend-SameShape,
}

FrontOpen-append :
    (w : List InFlightPacket) (p : InFlightPacket)
    → FrontOpen w
    → p.acked ≡ false
    → FrontOpen (w ++ p ∷ [])
FrontOpen-append [] p h e = e
FrontOpen-append (q ∷ w) p h e = h

abbrev Anything : Sent → Type 0
Anything s = Unit {0}

anything : (ss : List Sent) → All Anything ss
anything [] = tt
anything (s ∷ ss) = (tt, anything ss)

module _ (f : Double) where
  open f use {D}

  pub effective_window_size_bounds :
      (cwnd : D) → (1 ≤ effective_window_size f cwnd) × (effective_window_size f cwnd ≤ 10)
  effective_window_size_bounds cwnd = ground arith

  -- A new sender is within its limits, whatever timeout it is asked for.
  pub new_sender-IsValid : (initial : ℤ) (dest : Endpoint) → IsValid (new_sender f initial dest)
  unfolding new_sender
  new_sender-IsValid (ℤ.pos n) dest = ground arith
  new_sender-IsValid (ℤ.negsuc n) dest = ground arith

  count_clean_ack-keeps :
      (ack_time : ℕ) (p : InFlightPacket) (s : RdtSender D)
      → TimeoutOk s.timeout_ms
      → ((count_clean_ack f ack_time p s).window ≡ s.window)
        × TimeoutOk (count_clean_ack f ack_time p s).timeout_ms
  unfolding count_clean_ack update_rtt
  count_clean_ack-keeps ack_time p s h = ground (arith, h.0, h.1)

  take_marked-keeps :
      (ack_time : ℕ) (m : Marked) (s : RdtSender D)
      → IsValid s
      → SameLength s.window m
      → MarkedAll PacketOk (λ p h. h) m
      → let t = take_marked f ack_time m s in
        (length t.window ≡ length s.window) × All PacketOk t.window × TimeoutOk t.timeout_ms
  take_marked-keeps ack_time none s v k a = (refl, v.1, v.3)
  take_marked-keeps ack_time (some (p, w)) s v k a =
      let c = count_clean_ack-keeps ack_time p (record s { window = w }) v.3 in rw c.0 (k, a, c.1)

  take_ack-IsValid :
      (n ack_time : ℕ) (s : RdtSender D) → IsValid s → IsValid (take_ack f n ack_time s)
  unfolding take_ack
  take_ack-IsValid n ack_time s v =
      let m = mark_acked n s.window in
      let w = (take_marked f ack_time m s).window in
      let t =
        take_marked-keeps ack_time m s v (mark_acked-SameLength n s.window)
          (mark_acked-All PacketOk (λ p h. h) n s.window v.1) in
      let r = slide-FrontOpen w in
      (omega (arith, r.0, t.0, v.0), slide-All PacketOk (λ p h. h) w t.1, r.1, t.2)

  resent-IsValid :
      (io : PollIo) (timeout : ℕ) (s : RdtSender D)
      → IsValid s
      → IsValid (record s {
        window =
            (resend s.dest (effective_window_size f s.cwnd) timeout io.now io.sends s.window).0;
      })
  resent-IsValid io timeout s v =
      let win = effective_window_size f s.cwnd in
      let r = resend-SameShape s.dest win timeout io.now io.sends s.window in
      let a =
        resend-All PacketOk Anything s.dest win (λ p time h lt. (h.0, omega arith))
          (λ p x h. anything _) timeout io.now io.sends s.window v.1 in
      (omega (arith, r.0, v.0), a.0, r.1 v.2, v.3)

  decrease-IsValid : (s : RdtSender D) → IsValid s → IsValid (apply_congestion_decrease f s)
  unfolding apply_congestion_decrease
  decrease-IsValid s v = (v.0, v.1, v.2, ground arith)

  retransmit-IsValid :
      (io : PollIo) (congested : Bool) (s : RdtSender D)
      → IsValid s
      → IsValid (retransmit f io congested s).0 × All Anything (retransmit f io congested s).1
  retransmit-IsValid io true s v = (
    resent-IsValid io s.timeout_ms (apply_congestion_decrease f s) (decrease-IsValid s v),
    anything _,
  )
  retransmit-IsValid io false s v = (resent-IsValid io s.timeout_ms s v, anything _)

  push-IsValid :
      (seq : ℕ) (payload : List ℕ) (is_final : Bool)
      → length payload ≤ 1024
      → PushKeeps f IsValid Anything take_ack-IsValid retransmit-IsValid seq payload is_final
  push-IsValid seq payload is_final small t time v room =
      let p = in_flight seq payload is_final time in
      let b = effective_window_size_bounds t.cwnd in
      (
        omega (arith, length-append t.window (p ∷ []), b.1, room),
        All-append PacketOk t.window (p ∷ []) v.1 ((small, omega arith), tt),
        FrontOpen-append t.window p v.2 refl,
        v.3,
      )

  -- Polling keeps the window, the timeout and the retries within their limits on every branch.
  pub poll-IsValid : (io : PollIo) (s : RdtSender D) → IsValid s → IsValid (poll f io s).0
  poll-IsValid io s v = (poll_rule f IsValid Anything take_ack-IsValid retransmit-IsValid io s v).0

  -- `sendChunk` keeps the invariant, whatever chunk it is given and however it returns.
  pub send_chunk-IsValid :
      (io : ChunkIo) (seq : ℕ) (payload : List ℕ) (is_final : Bool) (s : RdtSender D)
      → IsValid s
      → IsValid (send_chunk f io seq payload is_final s).0
  send_chunk-IsValid io seq payload is_final s v =
      (send_chunk_rule f IsValid Anything take_ack-IsValid retransmit-IsValid io seq payload
        is_final s v (push-IsValid seq payload is_final) (λ t w small. anything _)).0

  -- `flush` keeps the invariant, however it returns.
  pub flush-IsValid : (ws : List Wait) (s : RdtSender D) → IsValid s → IsValid (flush f ws s).0
  flush-IsValid ws s v =
      (flush_rule f IsValid Anything take_ack-IsValid retransmit-IsValid ws s v).0
