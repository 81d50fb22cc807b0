-- ===== src/Sender/Rules.antt =====
-- One rule for what `pollAcksAndRetransmit`, `sendChunk` and `flush` keep: a property `P` of the
-- sender and a property `Q` of whatever is sent hold after each, if taking in an acknowledgement,
-- sending again and sending a new packet keep them.
use socket_programming.Base.{
  ℕ, ◌<◌, ◌≤◌, ◌≡◌, Bool, true, false, List, [], ◌∷◌, ◌++◌, Option, none, some, length, All,
  All-append, ltb, leb, Bool-cases, Option-cases, ◌⊎◌, inl, inr, arith,
}
use socket_programming.Endpoint.{Sent}
use socket_programming.Double.{Double}
use socket_programming.Sender.{RdtSender, abort_requested, send_data, effective_window_size}
use socket_programming.Sender.Poll.{
  Ready, quiet, broken, got, PollRound, PollIo, Verdict, ignored, rejected, acknowledged, verdict,
  scan, take_ack, poll_acks, retransmit, poll, Polled,
}
use socket_programming.Sender.Call.{
  Wait, ChunkIo, Sending, after_poll, wait_for_room, finish_poll, push_chunk, sent_new, in_flight,
  send_chunk, flush, is_empty,
}

room_of : (eff len : ℕ) → leb eff len ≡ false → len < eff
room_of eff len h = ground arith

-- The window has room where the loop's test fails.
abbrev pub HasRoom : (f : Double) → RdtSender f.D → Type 0
HasRoom f s = length s.window < effective_window_size f s.cwnd

module _ (f : Double) (P : RdtSender f.D → Type 0) (Q : Sent → Type 0)
    (ack : (n ack_time : ℕ) (s : RdtSender f.D) → P s → P (take_ack f n ack_time s))
    (again : (io : PollIo) (congested : Bool) (s : RdtSender f.D)
      → P s
      → P (retransmit f io congested s).0 × All Q (retransmit f io congested s).1) where
  open f use {D}

  abbrev pub Keeping : Polled f → Type 0
  Keeping x = P x.0 × All Q x.1

  abbrev pub KeepingCall : Sending f → Type 0
  KeepingCall x = P x.0 × All Q x.1

  poll_acks_rule : (rounds : List PollRound) (s : RdtSender D) → P s → P (poll_acks f rounds s).0
  unfolding poll_acks
  poll_acks_rule [] s v = v
  poll_acks_rule (round ∷ rest) s v =
      go round.ready (poll_acks_rule rest) (Bool-cases (abort_requested s.abortable round.aborted))
    where
      go :
          (r : Ready)
          → ((t : RdtSender D) → P t → P (poll_acks f rest t).0)
          → ((abort_requested s.abortable round.aborted ≡ true)
              ⊎ (abort_requested s.abortable round.aborted ≡ false))
          → P (poll_acks f (record round { ready = r } ∷ rest) s).0
      go r ih (inl e) = rw e v
      go quiet ih (inr e) = rw e v
      go broken ih (inr e) = rw e v
      go (got from bytes ack_time) ih (inr e) = rw e (told (verdict s.dest from bytes))
        where
          told :
              (o : Verdict)
              → P
                  (elim o as (λ _. RdtSender D × Bool) [
                    | ignored ↦ poll_acks f rest s
                    | rejected ↦ (s, false)
                    | acknowledged n ↦ poll_acks f rest (take_ack f n ack_time s)
                  ]).0
          told ignored = ih s v
          told rejected = v
          told (acknowledged n) = ih (take_ack f n ack_time s) (ack n ack_time s v)

  pub poll_rule : (io : PollIo) (s : RdtSender D) → P s → Keeping (poll f io s)
  unfolding poll
  poll_rule io s v = elim (Bool-cases (abort_requested s.abortable io.entry_aborted)) [
    | inl e ↦ rw e (v, tt)
    | inr e ↦ rw e (elim (Bool-cases (poll_acks f io.rounds s).1) [
      | inr e' ↦ rw e' (poll_acks_rule io.rounds s v, tt)
      | inl e' ↦
          let t = (poll_acks f io.rounds s).0 in
          let v' = poll_acks_rule io.rounds s v in
          rw e'
            (elim (Option-cases (scan t.abortable t.timeout_ms io.now io.scan_aborted t.window)) [
              | inl stopped ↦ rw stopped (v', tt)
              | inr (c, e2) ↦ rw e2 (again io c t v')
            ])
    ])
  ]

  after_poll_rule :
      (x : Polled f) (rest : RdtSender D → Sending f)
      → Keeping x
      → ((t : RdtSender D) → P t → KeepingCall (rest t))
      → KeepingCall (after_poll f x rest)
  after_poll_rule (s, sent, false) rest v go = v
  after_poll_rule (s, sent, true) rest v go =
      let r = go s v.0 in (r.0, All-append Q sent (rest s).1 v.1 r.1)

  wait_for_room_rule :
      (ws : List Wait) (rest : RdtSender D → Sending f) (s : RdtSender D)
      → P s
      → ((t : RdtSender D) → P t → HasRoom f t → KeepingCall (rest t))
      → KeepingCall (wait_for_room f ws rest s)
  unfolding wait_for_room
  wait_for_room_rule [] rest s v go =
      elim (Bool-cases (leb (effective_window_size f s.cwnd) (length s.window))) [
        | inl full ↦ rw full (v, tt)
        | inr room ↦ rw room (go s v (room_of _ _ room))
      ]
  wait_for_room_rule (w ∷ ws) rest s v go =
      elim (Bool-cases (leb (effective_window_size f s.cwnd) (length s.window))) [
        | inr room ↦ rw room (go s v (room_of _ _ room))
        | inl full ↦ rw full (elim (Bool-cases (abort_requested s.abortable w.aborted)) [
          | inl e ↦ rw e (v, tt)
          | inr e ↦ rw e (
              after_poll_rule (poll f w.poll_io s) (wait_for_room f ws rest)
                (poll_rule w.poll_io s v) (λ t v'. wait_for_room_rule ws rest t v' go))
        ])
      ]

  -- A new packet keeps `P` and `Q`, where there is room and the payload is within its limit.
  abbrev pub PushKeeps : ℕ → List ℕ → Bool → Type 0
  PushKeeps seq payload is_final =
      (t : RdtSender f.D) (time : ℕ)
      → P t
      → HasRoom f t
      → P (record t { window = t.window ++ in_flight seq payload is_final time ∷ [] })

  sent_new_rule :
      (io : ChunkIo) (seq : ℕ) (payload : List ℕ) (is_final : Bool) (s : RdtSender D)
      (o : List Sent × Option ℕ)
      → P s
      → HasRoom f s
      → PushKeeps seq payload is_final
      → All Q o.0
      → KeepingCall (sent_new f io seq payload is_final s o)
  sent_new_rule io seq payload is_final s (out, none) v room push q = (v, q)
  sent_new_rule io seq payload is_final s (out, some time) v room push q =
      after_poll_rule
        (record s { window = s.window ++ in_flight seq payload is_final time ∷ [] }, out, true)
        (λ t. finish_poll f (poll f io.last t)) (push s time v room, q)
        (λ t v'. poll_rule io.last t v')

  pub send_chunk_rule :
      (io : ChunkIo) (seq : ℕ) (payload : List ℕ) (is_final : Bool) (s : RdtSender D)
      → P s
      → (length payload ≤ 1024 → PushKeeps seq payload is_final)
      → ((t : RdtSender D)
          → P t
          → length payload ≤ 1024
          → All Q
              (send_data t.dest (effective_window_size f t.cwnd) seq is_final payload io.send).0)
      → KeepingCall (send_chunk f io seq payload is_final s)
  unfolding send_chunk push_chunk
  send_chunk_rule io seq payload is_final s v push out =
      elim (Bool-cases (abort_requested s.abortable io.entry_aborted)) [
        | inl e ↦ rw e (v, tt)
        | inr e ↦ rw e (elim (Bool-cases (ltb 1024 (length payload))) [
          | inl big ↦ rw big (v, tt)
          | inr small ↦
              let fits : length payload ≤ 1024 = ground (arith, small) in
              rw small (
                wait_for_room_rule io.waits (push_chunk f io seq payload is_final) s v λ t v' room.
                  sent_new_rule io seq payload is_final t
                    (send_data t.dest (effective_window_size f t.cwnd) seq is_final payload io.send)
                    v' room (push fits) (out t v' fits))
        ])
      ]

  pub flush_rule : (ws : List Wait) (s : RdtSender D) → P s → KeepingCall (flush f ws s)
  unfolding flush
  flush_rule [] s v = elim (Bool-cases (is_empty s.window)) [
    | inl e ↦ rw e (v, tt)
    | inr e ↦ rw e (v, tt)
  ]
  flush_rule (w ∷ ws) s v = elim (Bool-cases (is_empty s.window)) [
    | inl e ↦ rw e (v, tt)
    | inr e ↦ rw e (elim (Bool-cases (abort_requested s.abortable w.aborted)) [
      | inl e' ↦ rw e' (v, tt)
      | inr e' ↦ rw e' (
          after_poll_rule (poll f w.poll_io s) (flush f ws) (poll_rule w.poll_io s v)
            (flush_rule ws))
    ])
  ]
