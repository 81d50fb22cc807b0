-- ===== src/Sender/Flush.antt =====
-- What the return value of `flush` means.
use socket_programming.Base.{◌≡◌, refl, sym, true, false, List, [], ◌∷◌, some, Bool-cases, inl, inr}
use mathlib.Core.Option.{some-ne-none, some-injective}
use mathlib.Core.Bool.{false≢true}
use socket_programming.Double.{Double}
use socket_programming.Sender.{InFlightPacket, RdtSender, abort_requested}
use socket_programming.Sender.Poll.{Polled, poll}
use socket_programming.Sender.Call.{Wait, Sending, is_empty, after_poll, flush}

empty_of : (w : List InFlightPacket) → is_empty w ≡ true → w ≡ []
empty_of [] e = refl
empty_of (p ∷ w) e = absurd (false≢true e)

module _ (f : Double) where
  open f use {D}

  abbrev EmptyIf : Sending f → Type 0
  EmptyIf x = x.2 ≡ some true → x.0.window ≡ []

  after_poll-EmptyIf :
      (x : Polled f) (rest : RdtSender D → Sending f)
      → ((t : RdtSender D) → EmptyIf (rest t))
      → EmptyIf (after_poll f x rest)
  after_poll-EmptyIf (s, sent, false) rest h e = absurd (false≢true (some-injective false true e))
  after_poll-EmptyIf (s, sent, true) rest h e = h s e

  -- `flush` returns true only with nothing left in flight.
  pub flush-empty :
      (ws : List Wait) (s : RdtSender D)
      → (flush f ws s).2 ≡ some true
      → (flush f ws s).0.window ≡ []
  unfolding flush
  flush-empty [] s = elim (Bool-cases (is_empty s.window)) [
    | inl e ↦ rw e λ done. empty_of s.window e
    | inr e ↦ rw e λ open_. absurd (some-ne-none true (sym open_))
  ]
  flush-empty (w ∷ ws) s = elim (Bool-cases (is_empty s.window)) [
    | inl e ↦ rw e λ done. empty_of s.window e
    | inr e ↦ rw e (elim (Bool-cases (abort_requested s.abortable w.aborted)) [
      | inl stop ↦ rw stop λ e'. absurd (false≢true (some-injective false true e'))
      | inr on ↦ rw on (after_poll-EmptyIf (poll f w.poll_io s) (flush f ws) (flush-empty ws))
    ])
  ]
