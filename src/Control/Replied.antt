-- ===== src/Control/Replied.antt =====
-- Every command is answered: the replies that go out are counted.
pub mod Transfers
pub mod Commands
pub mod DataCommands
pub mod Every
use socket_programming.Base.{
  ℕ, zero, suc, ◌+◌, ◌≤◌, ◌<◌, ◌≡◌, refl, sym, ap, subst, ◌⊎◌, inl, inr, Bool, true, false, not,
  List, [], ◌∷◌, ◌++◌, Option, none, some, if◌then◌else◌, arith,
}
use socket_programming.Text.{Text}
use socket_programming.FileSystem.{FileSystem}
use socket_programming.FileSystem.Quiet.{Quiet}
use socket_programming.Control.ClientSession.{no_endpoint, no_channel}
use socket_programming.Control.State.{
  State, Event, has_thrown, replied, replied_lines, closed, shut_down, threw, started, emit, reply,
  reply_lines, reply_if_open, session_reply, close_socket, clear_data_state,
  join_completed_transfer,
}

abbrev pub replies : List Event → ℕ
replies [] = 0
replies (replied code message ∷ es) = suc (replies es)
replies (replied_lines code message ∷ es) = suc (replies es)
replies (closed socket ∷ es) = replies es
replies (shut_down ∷ es) = replies es
replies (threw ∷ es) = replies es
replies (started job ∷ es) = replies es

-- The replies, where an exception counts for `b`.
abbrev pub outcomes : ℕ → List Event → ℕ
outcomes b [] = 0
outcomes b (replied code message ∷ es) = suc (outcomes b es)
outcomes b (replied_lines code message ∷ es) = suc (outcomes b es)
outcomes b (closed socket ∷ es) = outcomes b es
outcomes b (shut_down ∷ es) = outcomes b es
outcomes b (threw ∷ es) = b + outcomes b es
outcomes b (started job ∷ es) = outcomes b es

pub replies_le_outcomes : (b : ℕ) (es : List Event) → replies es ≤ outcomes b es
replies_le_outcomes b [] = omega arith
replies_le_outcomes b (replied code message ∷ es) = omega (arith, replies_le_outcomes b es)
replies_le_outcomes b (replied_lines code message ∷ es) = omega (arith, replies_le_outcomes b es)
replies_le_outcomes b (closed socket ∷ es) = replies_le_outcomes b es
replies_le_outcomes b (shut_down ∷ es) = replies_le_outcomes b es
replies_le_outcomes b (threw ∷ es) = omega (arith, replies_le_outcomes b es)
replies_le_outcomes b (started job ∷ es) = replies_le_outcomes b es

-- Without an exception, or where it counts for nothing, there are only the replies.
pub outcomes-replies :
    (b : ℕ) (es : List Event) → (has_thrown es ≡ false) ⊎ (b ≡ 0) → outcomes b es ≡ replies es
outcomes-replies b [] h = refl
outcomes-replies b (replied code message ∷ es) h = ap suc (outcomes-replies b es h)
outcomes-replies b (replied_lines code message ∷ es) h = ap suc (outcomes-replies b es h)
outcomes-replies b (closed socket ∷ es) h = outcomes-replies b es h
outcomes-replies b (shut_down ∷ es) h = outcomes-replies b es h
outcomes-replies b (threw ∷ es) (inl calm) = cc calm
outcomes-replies b (threw ∷ es) (inr e) = omega (arith, e, outcomes-replies b es (inr e))
outcomes-replies b (started job ∷ es) h = outcomes-replies b es h

pub outcomes-append :
    (b : ℕ) (es ds : List Event) → outcomes b (es ++ ds) ≡ outcomes b es + outcomes b ds
outcomes-append b [] ds = omega arith
outcomes-append b (replied code message ∷ es) ds = omega (arith, outcomes-append b es ds)
outcomes-append b (replied_lines code message ∷ es) ds = omega (arith, outcomes-append b es ds)
outcomes-append b (closed socket ∷ es) ds = outcomes-append b es ds
outcomes-append b (shut_down ∷ es) ds = outcomes-append b es ds
outcomes-append b (threw ∷ es) ds = omega (arith, outcomes-append b es ds)
outcomes-append b (started job ∷ es) ds = outcomes-append b es ds

-- An exception counts for one, or the file system does not throw.
abbrev pub Excused : ℕ → FileSystem → Type 0
Excused b fs = Quiet fs ⊎ (b ≡ 1)

module _ {fs : FileSystem} (b socket n : ℕ) where
  -- A session with its control socket open, after `n` replies at least, where an exception counts for `b`.
  abbrev pub Waiting : State fs → Type 0
  Waiting st = (st.session.socket ≡ some socket) × (n ≤ outcomes b st.events)

  -- After one more.
  abbrev pub Answered : State fs → Type 0
  Answered st = n < outcomes b st.events

  pub reply-Answered :
      (code : ℕ) (message : Text) (st : State fs) → Waiting st → Answered (reply code message st)
  reply-Answered code message st (o, h) =
      omega (arith, h, outcomes-append b st.events (replied code message ∷ []))

  pub reply_lines-Answered :
      (code : ℕ) (message : Text) (st : State fs)
      → Waiting st
      → Answered (reply_lines code message st)
  reply_lines-Answered code message st (o, h) =
      omega (arith, h, outcomes-append b st.events (replied_lines code message ∷ []))

  -- `sessionReply` replies where the socket is open.
  pub session_reply-reply :
      (code : ℕ) (message : Text) (st : State fs)
      → Waiting st
      → session_reply code message st ≡ reply code message st
  session_reply-reply code message st (o, h) = rw o refl

  pub session_reply-Answered :
      (code : ℕ) (message : Text) (st : State fs)
      → Waiting st
      → Answered (session_reply code message st)
  session_reply-Answered code message st h =
      subst Answered (sym (session_reply-reply code message st h))
        (reply-Answered code message st h)

  pub session_reply-socket :
      (code : ℕ) (message : Text) (st : State fs)
      → Waiting st
      → (session_reply code message st).session.socket ≡ some socket
  session_reply-socket code message st h =
      subst (λ x. x.session.socket ≡ some socket) (sym (session_reply-reply code message st h)) h.0

  clearing :
      (o : Option ℕ) (st : State fs)
      → Waiting st
      → Waiting (record (close_socket o st) {
        session = record st.session {
          pending_data_socket = none;
          pending_peer_addr = no_endpoint;
          data_channel_mode = no_channel;
        };
      })
  clearing none st h = h
  clearing (some s) st (o, h) = (o, omega (arith, h, outcomes-append b st.events (closed s ∷ [])))

  pub clear_data_state-Waiting : (st : State fs) → Waiting st → Waiting (clear_data_state st)
  clear_data_state-Waiting st h = clearing st.session.pending_data_socket st h

  joining :
      (is_active : Bool) (st : State fs)
      → Waiting st
      → Waiting (
          join_completed_transfer
            (record st { session = record st.session { transfer_active = is_active } }))
  joining true st h = h
  joining false st h = h

  pub join_completed_transfer-Waiting :
      (st : State fs) → Waiting st → Waiting (join_completed_transfer st)
  join_completed_transfer-Waiting st h = joining st.session.transfer_active st h
