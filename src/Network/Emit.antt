-- ===== src/Network/Emit.antt =====
-- What the sender puts on the network: server/src/rdt/RdtSender.cpp sends, and sends again, datagrams
-- of one stream alone, to its destination alone.
use socket_programming.Base.{
  ℕ, ◌≤◌, ◌≡◌, sym, ap, subst, Bool, true, false, List, [], ◌∷◌, none, some, length, All,
  All-append, inl, inr, arith,
}
use socket_programming.Endpoint.{Endpoint, Sent}
use socket_programming.Double.{Double}
use socket_programming.Receiver.Buffer.{Slot}
use socket_programming.Sender.{
  InFlightPacket, RdtSender, SendAnswer, mark_acked, Marked, send_data, effective_window_size,
  update_rtt, apply_congestion_decrease,
}
use socket_programming.Sender.Poll.{
  PollIo, resend, count_clean_ack, take_marked, take_ack, retransmit,
}
use socket_programming.Sender.Call.{Wait, ChunkIo, in_flight, send_chunk, flush}
use socket_programming.Sender.Rules.{PushKeeps, send_chunk_rule, flush_rule}
use socket_programming.Sender.Packets.{MarkedAll, mark_acked-All, slide-All, resend-All}
use socket_programming.Sender.Wire.{data_datagram, send_data_lem}
use socket_programming.Network.Channel.{CanSend, stream_datagram}

module _ (stream : ℕ → Slot) (dest : Endpoint) where
  -- A packet in flight holds its chunk of the stream.
  abbrev pub OnStream : InFlightPacket → Type 0
  OnStream p = CanSend stream p.seq_num × ((p.payload, p.is_final) ≡ stream p.seq_num)

  abbrev pub Streams : {D : Type 0} → RdtSender D → Type 0
  Streams s = (s.dest ≡ dest) × All OnStream s.window

  -- A datagram of the stream, to the destination.
  abbrev pub Emitted : Sent → Type 0
  Emitted x =
      (win : ℕ) × (seq : ℕ) × CanSend stream seq × (x ≡ (dest, stream_datagram stream win seq))

  send_data-Emitted :
      (to : Endpoint) (win seq : ℕ) (payload : List ℕ) (is_final : Bool) (a : SendAnswer)
      → to ≡ dest
      → CanSend stream seq
      → (payload, is_final) ≡ stream seq
      → length payload ≤ 1024
      → All Emitted (send_data to win seq is_final payload a).0
  send_data-Emitted to win seq payload is_final a d c e small =
      elim (send_data_lem to win seq is_final payload a small) [
        | inl none_sent ↦ rw none_sent tt
        | inr sent ↦
            rw (sent, d)
              (
                (
                  win,
                  seq,
                  c,
                  sym (ap (λ (x : Slot). (dest, data_datagram win seq x.1 x.0)) (sym e)),
                ),
                tt,
              )
      ]

  module _ (f : Double) where
    open f use {D}

    take_marked-OnStream :
        (ack_time : ℕ) (m : Marked) (s : RdtSender D)
        → Streams s
        → MarkedAll OnStream (λ p h. h) m
        → Streams (take_marked f ack_time m s)
    unfolding count_clean_ack update_rtt
    take_marked-OnStream ack_time none s v a = v
    take_marked-OnStream ack_time (some (p, w)) s v a = ground (arith, v.0, a)

    take_ack-Streams :
        (n ack_time : ℕ) (s : RdtSender D) → Streams s → Streams (take_ack f n ack_time s)
    unfolding take_ack
    take_ack-Streams n ack_time s v =
        let m = mark_acked n s.window in
        let t =
          take_marked-OnStream ack_time m s v (mark_acked-All OnStream (λ p h. h) n s.window v.1) in
        (t.0, slide-All OnStream (λ p h. h) (take_marked f ack_time m s).window t.1)

    resend-Streams :
        (io : PollIo) (timeout win : ℕ) (s : RdtSender D)
        → Streams s
        → let r = resend s.dest win timeout io.now io.sends s.window in
          All OnStream r.0 × All Emitted r.1
    resend-Streams io timeout win s v =
        resend-All OnStream Emitted s.dest win (λ p time h lt. h)
          (λ p a h.
            send_data-Emitted s.dest win p.seq_num p.payload p.is_final a v.0 h.0 h.1
              (subst (λ (x : Slot). length x.0 ≤ 1024) (sym h.1) h.0.small))
          timeout io.now io.sends s.window v.1

    retransmit-Streams :
        (io : PollIo) (congested : Bool) (s : RdtSender D)
        → Streams s
        → Streams (retransmit f io congested s).0 × All Emitted (retransmit f io congested s).1
    unfolding apply_congestion_decrease
    retransmit-Streams io true s v =
        let t = apply_congestion_decrease f s in
        let r = resend-Streams io s.timeout_ms (effective_window_size f t.cwnd) t v in
        ((v.0, r.0), r.1)
    retransmit-Streams io false s v =
        let r = resend-Streams io s.timeout_ms (effective_window_size f s.cwnd) s v in
        ((v.0, r.0), r.1)

    push-Streams :
        (seq : ℕ) (payload : List ℕ) (is_final : Bool)
        → CanSend stream seq
        → (payload, is_final) ≡ stream seq
        → PushKeeps f Streams Emitted take_ack-Streams retransmit-Streams seq payload is_final
    push-Streams seq payload is_final c e t time v room = (
      v.0,
      All-append OnStream t.window (in_flight seq payload is_final time ∷ []) v.1 ((c, e), tt),
    )

    -- Given the chunk of the stream that has its number, `sendChunk` puts on the network datagrams of
    -- the stream alone, to the destination alone, and its window holds chunks of the stream alone.
    pub send_chunk-Streams :
        (io : ChunkIo) (seq : ℕ) (payload : List ℕ) (is_final : Bool) (s : RdtSender D)
        → CanSend stream seq
        → (payload, is_final) ≡ stream seq
        → Streams s
        → let (t, sent, result) = send_chunk f io seq payload is_final s in
          Streams t × All Emitted sent
    send_chunk-Streams io seq payload is_final s c e v =
        send_chunk_rule f Streams Emitted take_ack-Streams retransmit-Streams io seq payload
          is_final s v (λ small. push-Streams seq payload is_final c e)
          (λ t w small.
            send_data-Emitted t.dest (effective_window_size f t.cwnd) seq payload is_final io.send
              w.0 c e small)

    -- `flush` sends datagrams of the stream alone, if the window holds chunks of the stream alone.
    pub flush-Streams :
        (ws : List Wait) (s : RdtSender D)
        → Streams s
        → let (t, sent, result) = flush f ws s in Streams t × All Emitted sent
    flush-Streams ws s v = flush_rule f Streams Emitted take_ack-Streams retransmit-Streams ws s v
