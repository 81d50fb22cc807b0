-- ===== src/Sender/Poll.antt =====
-- `pollAcksAndRetransmit`: take in the acknowledgements that have come, then send again what is
-- overdue.
use socket_programming.Base.{
  ℕ, ◌+◌, ◌-◌, Bool, true, false, not, ◌||◌, List, [], ◌∷◌, ◌++◌, Option, none, some, leb, ◌==◌,
  if◌then◌else◌,
}
use socket_programming.Endpoint.{Endpoint, same_endpoint, Sent}
use socket_programming.Double.{Double}
use socket_programming.Header.{
  RdtHeader, has_flag, flag_ack, flag_data, flag_nak, decode_validated_datagram,
}
use socket_programming.Sender.{
  InFlightPacket, RdtSender, SendAnswer, abort_requested, max_retries, send_data, mark_acked,
  Marked, slide, overdue, effective_window_size, update_rtt, apply_congestion_decrease,
}

-- What `select` and `recvfrom` find: nothing, an error, or a datagram; with it the clock at which
-- its acknowledgement is timed.
pub data Ready : Type 0 where
  quiet : Ready
  broken : Ready
  got : Endpoint → List ℕ → ℕ → Ready

pub record PollRound : Type 0 where
  pub aborted : Bool
  pub ready : Ready

-- A list of rounds that ends stands for a network with nothing more to read; a list of abort answers
-- that ends, for a predicate that says no; a list of sends that ends, for `sendto` failing.
pub record PollIo : Type 0 where
  pub entry_aborted : Bool
  pub rounds : List PollRound
  pub now : ℕ
  pub scan_aborted : List Bool
  pub sends : List SendAnswer

abbrev pub next_answer : List SendAnswer → SendAnswer
next_answer [] = record { send_done = false; time = 0 }
next_answer (a ∷ rest) = a

abbrev pub rest_answers : List SendAnswer → List SendAnswer
rest_answers [] = []
rest_answers (a ∷ rest) = rest

abbrev pub also : Bool → Option Bool → Option Bool
also b none = none
also b (some c) = some (b || c)

-- The scan for overdue packets: `none` if the abort predicate stops it, else whether one is overdue.
unfoldable pub scan : Bool → ℕ → ℕ → List Bool → List InFlightPacket → Option Bool
scan abortable timeout now answers [] = some false
scan abortable timeout now [] (p ∷ w) =
    also (overdue timeout now p) (scan abortable timeout now [] w)
scan abortable timeout now (a ∷ answers) (p ∷ w) =
    let rest = scan abortable timeout now answers w in
    if abort_requested abortable a then none else also (overdue timeout now p) rest

-- The new window, what is sent, and whether the loop ran to its end.
abbrev pub Resent : Type 0
Resent = List InFlightPacket × List Sent × Bool

abbrev pub keep : InFlightPacket → Resent → Resent
keep p (w, sent, done) = (p ∷ w, sent, done)

-- One packet was sent again, at the time given; the others follow.
abbrev pub sent_again : InFlightPacket → List Sent → ℕ → Resent → Resent
sent_again p out time (w, sent, done) = (
  record p { retries = p.retries + 1; sent_time = time; retransmitted = true } ∷ w,
  out ++ sent,
  done,
)

abbrev pub resend_one :
    InFlightPacket → List InFlightPacket → List Sent × Option ℕ → Resent → Resent
resend_one p w (out, none) rest = (p ∷ w, out, false)
resend_one p w (out, some time) rest = sent_again p out time rest

unfoldable pub resend : Endpoint → ℕ → ℕ → ℕ → List SendAnswer → List InFlightPacket → Resent
resend dest win timeout now sends [] = ([], [], true)
resend dest win timeout now sends (p ∷ w) =
    let again = resend dest win timeout now (rest_answers sends) w in
    let same = resend dest win timeout now sends w in
    if not (overdue timeout now p)
    then keep p same
    else if leb max_retries p.retries
    then (p ∷ w, [], false)
    else resend_one p w (send_data dest win p.seq_num p.is_final p.payload (next_answer sends))
        again

-- What a datagram tells the sender.
pub data Verdict : Type 0 where
  ignored : Verdict
  rejected : Verdict
  acknowledged : ℕ → Verdict

abbrev pub verdict_of : RdtHeader → Verdict
verdict_of h =
    if has_flag h.flags flag_data || not (h.payload_len == 0)
    then ignored
    else if has_flag h.flags flag_nak
    then rejected
    else if not (has_flag h.flags flag_ack)
    then ignored
    else acknowledged h.ack_num

unfoldable pub verdict : Endpoint → Endpoint → List ℕ → Verdict
verdict dest from bytes =
    if not (same_endpoint from dest)
    then ignored
    else elim (decode_validated_datagram bytes) [ none ↦ ignored | some h ↦ verdict_of h ]

module _ (f : Double) where
  open f use {D, of_ℕ, add, of_ns}

  -- A first acknowledgement of a packet that was sent once: a sample of the round trip, and one step
  -- of the additive increase.
  unfoldable pub count_clean_ack : ℕ → InFlightPacket → RdtSender D → RdtSender D
  count_clean_ack ack_time p s =
      if p.retransmitted
      then s
      else let t = update_rtt f (of_ns (ack_time - p.sent_time)) s in
        let acks = t.clean_acks + 1 in
        if leb (effective_window_size f t.cwnd) acks
        then record t { cwnd = add t.cwnd (of_ℕ 1); clean_acks = 0 }
        else record t { clean_acks = acks }

  abbrev pub take_marked : ℕ → Marked → RdtSender D → RdtSender D
  take_marked ack_time none s = s
  take_marked ack_time (some (p, w)) s = count_clean_ack ack_time p (record s { window = w })

  unfoldable pub take_ack : ℕ → ℕ → RdtSender D → RdtSender D
  take_ack n ack_time s =
      let t = take_marked ack_time (mark_acked n s.window) s in record t { window = slide t.window }

  -- The loop over `select`: the state, and false if the call returns false.
  unfoldable pub poll_acks : List PollRound → RdtSender D → RdtSender D × Bool
  poll_acks [] s = (s, true)
  poll_acks (round ∷ rest) s =
      let next = poll_acks rest in
      if abort_requested s.abortable round.aborted then (s, false) else elim round.ready [
        | quiet ↦ (s, true)
        | broken ↦ (s, true)
        | got from bytes ack_time ↦ elim (verdict s.dest from bytes) [
          | ignored ↦ next s
          | rejected ↦ (s, false)
          | acknowledged n ↦ next (take_ack n ack_time s)
        ]
      ]

  abbrev pub Polled : Type 0
  Polled = RdtSender D × List Sent × Bool

  abbrev pub retransmit : PollIo → Bool → RdtSender D → Polled
  retransmit io congested s =
      let t = if congested then apply_congestion_decrease f s else s in
      let (w, sent, done) =
        resend t.dest (effective_window_size f t.cwnd) s.timeout_ms io.now io.sends t.window in
      (record t { window = w }, sent, done)

  -- `pollAcksAndRetransmit`: the new state, what is sent, and the return value.
  unfoldable pub poll : PollIo → RdtSender D → Polled
  poll io s =
      if abort_requested s.abortable io.entry_aborted
      then (s, [], false)
      else let (t, going) = poll_acks io.rounds s in
        if not going
        then (t, [], false)
        else elim (scan t.abortable t.timeout_ms io.now io.scan_aborted t.window) [
          | none ↦ (t, [], false)
          | some congested ↦ retransmit io congested t
        ]
