-- ===== src/Sender/Packets.antt =====
-- A property of each packet in flight through the window's operations: marking a packet as
-- acknowledged, sliding the window, sending again.
use socket_programming.Base.{
  ℕ, ◌+◌, ◌<◌, true, not, ◌&&◌, List, [], ◌∷◌, Option, none, some, All, All-append, leb, ◌==◌,
  Bool-cases, inl, inr, arith,
}
use socket_programming.Endpoint.{Endpoint, Sent}
use socket_programming.Sender.{
  InFlightPacket, SendAnswer, max_retries, mark_acked, Marked, behind, slide, overdue, send_data,
}
use socket_programming.Sender.Poll.{resend, next_answer, rest_answers, resend_one, Resent}

abbrev pub resent : InFlightPacket → ℕ → InFlightPacket
resent p time = record p { retries = p.retries + 1; sent_time = time; retransmitted = true }

module _ (R : InFlightPacket → Type 0)
    (marks : (p : InFlightPacket) → R p → R (record p { acked = true })) where
  abbrev pub MarkedAll : Marked → Type 0
  MarkedAll none = Unit {0}
  MarkedAll (some (p, w)) = All R w

  behind-All : (p : InFlightPacket) (m : Marked) → R p → MarkedAll m → MarkedAll (behind p m)
  behind-All p none h k = tt
  behind-All p (some (q, w)) h k = (h, k)

  pub mark_acked-All : (n : ℕ) (w : List InFlightPacket) → All R w → MarkedAll (mark_acked n w)
  unfolding mark_acked
  mark_acked-All n [] h = tt
  mark_acked-All n (p ∷ w) h = elim (Bool-cases (p.seq_num == n && not p.acked)) [
    | inl e ↦ simp e (marks p h.0, h.1)
    | inr e ↦ simp e (behind-All p (mark_acked n w) h.0 (mark_acked-All n w h.1))
  ]

  pub slide-All : (w : List InFlightPacket) → All R w → All R (slide w)
  unfolding slide
  slide-All [] h = tt
  slide-All (p ∷ w) h = elim (Bool-cases p.acked) [
    | inl e ↦ let r = slide-All w h.1 in simp e r
    | inr e ↦ simp e h
  ]

module _ (R : InFlightPacket → Type 0) (Q : Sent → Type 0) (dest : Endpoint) (win : ℕ)
    (agains : (p : InFlightPacket) (time : ℕ) → R p → p.retries < 10 → R (resent p time))
    (sends_ok : (p : InFlightPacket) (a : SendAnswer)
      → R p
      → All Q (send_data dest win p.seq_num p.is_final p.payload a).0) where
  abbrev pub ResentAll : Resent → Type 0
  ResentAll x = All R x.0 × All Q x.1

  resend_one-All :
      (p : InFlightPacket) (w : List InFlightPacket) (o : List Sent × Option ℕ) (more : Resent)
      → All R (p ∷ w)
      → p.retries < 10
      → All Q o.0
      → ResentAll more
      → ResentAll (resend_one p w o more)
  resend_one-All p w (out, none) more h lt q r = (h, q)
  resend_one-All p w (out, some time) (w', sent, done) h lt q r =
      ((agains p time h.0 lt, r.0), All-append Q out sent q r.1)

  pub resend-All :
      (timeout now : ℕ) (sends : List SendAnswer) (w : List InFlightPacket)
      → All R w
      → ResentAll (resend dest win timeout now sends w)
  unfolding resend
  resend-All timeout now sends [] h = (tt, tt)
  resend-All timeout now sends (p ∷ w) h = elim (Bool-cases (overdue timeout now p)) [
    | inr e ↦ let r = resend-All timeout now sends w h.1 in rw e ((h.0, r.0), r.1)
    | inl e ↦ rw e (elim (Bool-cases (leb max_retries p.retries)) [
      | inl full ↦ rw full (h, tt)
      | inr room ↦ rw room (
          resend_one-All p w (send_data dest win p.seq_num p.is_final p.payload (next_answer sends))
            (resend dest win timeout now (rest_answers sends) w) h (ground (arith, room))
            (sends_ok p (next_answer sends) h.0)
            (resend-All timeout now (rest_answers sends) w h.1))
    ])
  ]
