-- ===== src/Sender/Window.antt =====
-- The sender's invariant: the window is within the receiver's, the timeout within its limits, the
-- retries within theirs, and the oldest packet in flight is not acknowledged.
use socket_programming.Base.{
  ℕ, ◌≤◌, ◌≡◌, refl, false, not, ◌&&◌, List, [], ◌∷◌, Option, none, some, length, All, leb, ◌==◌,
  Bool-cases, inl, inr, arith,
}
use socket_programming.Endpoint.{Endpoint, Sent}
use socket_programming.Sender.{
  InFlightPacket, RdtSender, SendAnswer, max_retries, mark_acked, Marked, behind, slide, overdue,
  send_data,
}
use socket_programming.Sender.Poll.{resend, next_answer, rest_answers, resend_one, Resent}

-- A packet in flight: within the payload limit, and sent again ten times at most.
abbrev pub PacketOk : InFlightPacket → Type 0
PacketOk p = (length p.payload ≤ 1024) × (p.retries ≤ 10)

abbrev pub FrontOpen : List InFlightPacket → Type 0
FrontOpen [] = Unit {0}
FrontOpen (p ∷ w) = p.acked ≡ false

abbrev pub TimeoutOk : ℕ → Type 0
TimeoutOk t = (50 ≤ t) × (t ≤ 2000)

module _ {D : Type 0} where
  abbrev pub IsValid : RdtSender D → Type 0
  IsValid s =
      (length s.window ≤ 10) × All PacketOk s.window × FrontOpen s.window × TimeoutOk s.timeout_ms

-- Marking changes no packet but the one found, and takes none away.
abbrev pub SameLength : List InFlightPacket → Marked → Type 0
SameLength w none = Unit {0}
SameLength w (some (p, w')) = length w' ≡ length w

behind-SameLength :
    (p : InFlightPacket) (w : List InFlightPacket) (m : Marked)
    → SameLength w m
    → SameLength (p ∷ w) (behind p m)
behind-SameLength p w none k = tt
behind-SameLength p w (some (q, w')) k = omega (arith, k)

pub mark_acked-SameLength : (n : ℕ) (w : List InFlightPacket) → SameLength w (mark_acked n w)
unfolding mark_acked
mark_acked-SameLength n [] = tt
mark_acked-SameLength n (p ∷ w) = elim (Bool-cases (p.seq_num == n && not p.acked)) [
  | inl e ↦ simp e refl
  | inr e ↦ simp e (behind-SameLength p w (mark_acked n w) (mark_acked-SameLength n w))
]

pub slide-FrontOpen :
    (w : List InFlightPacket) → (length (slide w) ≤ length w) × FrontOpen (slide w)
unfolding slide
slide-FrontOpen [] = (omega arith, tt)
slide-FrontOpen (p ∷ w) = elim (Bool-cases p.acked) [
  | inl e ↦ let r = slide-FrontOpen w in simp e (omega (arith, r.0), r.1)
  | inr e ↦ simp e (omega arith, refl)
]

-- What a resend keeps: the number of packets, and whether the first is acknowledged.
abbrev pub SameShape : List InFlightPacket → Resent → Type 0
SameShape w (w', sent, done) = (length w' ≡ length w) × (FrontOpen w → FrontOpen w')

resend_one-SameShape :
    (p : InFlightPacket) (w : List InFlightPacket) (o : List Sent × Option ℕ) (again : Resent)
    → SameShape w again
    → SameShape (p ∷ w) (resend_one p w o again)
resend_one-SameShape p w (out, none) again r = (refl, λ x. x)
resend_one-SameShape p w (out, some time) (w', sent, done) r = (omega (arith, r.0), λ x. x)

pub resend-SameShape :
    (dest : Endpoint) (win timeout now : ℕ) (sends : List SendAnswer) (w : List InFlightPacket)
    → SameShape w (resend dest win timeout now sends w)
unfolding resend
resend-SameShape dest win timeout now sends [] = (refl, λ x. x)
resend-SameShape dest win timeout now sends (p ∷ w) = elim (Bool-cases (overdue timeout now p)) [
  | inr e ↦
      let r = resend-SameShape dest win timeout now sends w in rw e (omega (arith, r.0), λ x. x)
  | inl e ↦ rw e (elim (Bool-cases (leb max_retries p.retries)) [
    | inl full ↦ rw full (refl, λ x. x)
    | inr room ↦ rw room (
        resend_one-SameShape p w
          (send_data dest win p.seq_num p.is_final p.payload (next_answer sends))
          (resend dest win timeout now (rest_answers sends) w)
          (resend-SameShape dest win timeout now (rest_answers sends) w))
  ])
]
