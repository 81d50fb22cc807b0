-- ===== src/Sender/ClientReady.antt =====
-- `waitForClientReady` of server/src/rdt/RdtSender.cpp: the passive mode, where the sender waits for
-- the client's SYN and answers it.
use socket_programming.Base.{
  ℕ, zero, suc, ◌≤◌, ◌≡◌, ◌≢◌, refl, sym, Bool, true, false, not, ◌&&◌, List, [], ◌∷◌, Option, none,
  some, length, ◌==◌, if◌then◌else◌, Bool-cases, Option-cases, inl, inr, arith,
}
use mathlib.Core.Option.{some-ne-none, some-injective}
use mathlib.Core.Bool.{false≢true}
use socket_programming.Endpoint.{Endpoint, Sent}
use socket_programming.Header.{
  RdtHeader, has_flag, flag_syn, flag_ack, flag_data, decode_validated_datagram, datagram,
}
use socket_programming.Sender.{abort_requested}

-- What `recvfrom` did: after an error the code asks the abort predicate; with a datagram comes what
-- `sendto` would answer.
pub data Knock : Type 0 where
  timed_out : Bool → Knock
  failed : Knock
  got : Endpoint → List ℕ → Bool → Knock

pub record Attempt : Type 0 where
  pub aborted : Bool
  pub knock : Knock

-- The acknowledgement of a SYN.
unfoldable pub ready_header : ℕ → RdtHeader
ready_header seq = record {
  seq_num = 0;
  ack_num = seq;
  flags = flag_ack;
  window_size = 1;
  payload_len = 0;
  checksum = 0;
  reserved = 0;
}

abbrev pub is_syn : RdtHeader → Bool
is_syn h = has_flag h.flags flag_syn && not (has_flag h.flags flag_data) && h.payload_len == 0

-- The destination afterwards, what is sent, and the return value; `none` is no return yet.
abbrev pub Waiting : Type 0
Waiting = Endpoint × List Sent × Option Bool

abbrev pub answer_syn : Endpoint → RdtHeader → Bool → Waiting
answer_syn from h send_done =
    (from, (from, datagram (ready_header h.seq_num) []) ∷ [], some send_done)

abbrev pub hear : Knock → Bool → Endpoint → Waiting → Waiting
hear (timed_out aborted) abortable dest next =
    if abort_requested abortable aborted then (dest, [], some false) else next
hear failed abortable dest next = (dest, [], some false)
hear (got from bytes send_done) abortable dest next = elim (decode_validated_datagram bytes) [
  | none ↦ next
  | some h ↦ if is_syn h then answer_syn from h send_done else next
]

-- The loop, with the attempts that are left.
unfoldable pub knock_loop : ℕ → List Attempt → Bool → Endpoint → Waiting
knock_loop zero attempts abortable dest = (dest, [], some false)
knock_loop (suc left) [] abortable dest = (dest, [], none)
knock_loop (suc left) (a ∷ rest) abortable dest =
    let next = knock_loop left rest abortable dest in
    if abort_requested abortable a.aborted
    then (dest, [], some false)
    else hear a.knock abortable dest next

-- `waitForClientReady`
unfoldable pub wait_for_client_ready : Bool → List Attempt → Bool → Endpoint → Waiting
unfolding knock_loop
wait_for_client_ready aborted attempts abortable dest =
    if abort_requested abortable aborted
    then (dest, [], some false)
    else knock_loop 10 attempts abortable dest

-- One of the attempts heard a valid SYN from `e`, with the header `h`.
pub data Knocked (e : Endpoint) (h : RdtHeader) : List Attempt → Type 0 where
  here :
      {a : Attempt} {rest : List Attempt} (bytes : List ℕ) (send_done : Bool)
      → a.knock ≡ Knock.got e bytes send_done
      → decode_validated_datagram bytes ≡ some h
      → is_syn h ≡ true
      → Knocked e h (a ∷ rest)
  later : {a : Attempt} {rest : List Attempt} → Knocked e h rest → Knocked e h (a ∷ rest)

-- The destination is one that has sent a valid SYN, and what was sent is its acknowledgement alone.
abbrev pub Captured : List Attempt → Waiting → Type 0
Captured attempts (dest, sent, result) =
    (h : RdtHeader) × Knocked dest h attempts
    × (sent ≡ (dest, datagram (ready_header h.seq_num) []) ∷ [])

abbrev CapturedIf : List Attempt → Waiting → Type 0
CapturedIf attempts x = x.2 ≡ some true → Captured attempts x

no_capture :
    (attempts : List Attempt) (dest : Endpoint) → CapturedIf attempts (dest, [], some false)
no_capture attempts dest e = absurd (false≢true (some-injective false true e))

later-CapturedIf :
    (a : Attempt) (rest : List Attempt) (x : Waiting) → CapturedIf rest x → CapturedIf (a ∷ rest) x
later-CapturedIf a rest x c e = let r = c e in (r.0, Knocked.later r.1, r.2)

hear-CapturedIf :
    (aborted : Bool) (k : Knock) (rest : List Attempt) (abortable : Bool) (dest : Endpoint)
    (next : Waiting)
    → CapturedIf (record { aborted = aborted; knock = k } ∷ rest) next
    → CapturedIf (record { aborted = aborted; knock = k } ∷ rest) (hear k abortable dest next)
hear-CapturedIf aborted (timed_out answer) rest abortable dest next c =
    elim (Bool-cases (abort_requested abortable answer)) [
      | inl e ↦ rw e (no_capture _ dest)
      | inr e ↦ rw e c
    ]
hear-CapturedIf aborted failed rest abortable dest next c = no_capture _ dest
hear-CapturedIf aborted (got from bytes send_done) rest abortable dest next c =
    elim (Option-cases (decode_validated_datagram bytes)) [
      | inl e ↦ rw (e, hear) c
      | inr (h, e) ↦
          rw (e, hear)
            (elim (Bool-cases (is_syn h)) [
              | inr other ↦ rw other c
              | inl syn ↦ rw syn λ done. (h, Knocked.here bytes send_done refl e syn, refl)
            ])
    ]

knock_loop-CapturedIf :
    (left : ℕ) (attempts : List Attempt) (abortable : Bool) (dest : Endpoint)
    → CapturedIf attempts (knock_loop left attempts abortable dest)
unfolding knock_loop
knock_loop-CapturedIf zero attempts abortable dest = no_capture attempts dest
knock_loop-CapturedIf (suc left) [] abortable dest = λ e. absurd (some-ne-none true (sym e))
knock_loop-CapturedIf (suc left) (a ∷ rest) abortable dest =
    elim (Bool-cases (abort_requested abortable a.aborted)) [
      | inl e ↦ rw e (no_capture (a ∷ rest) dest)
      | inr e ↦ rw e (
          hear-CapturedIf a.aborted a.knock rest abortable dest
            (knock_loop left rest abortable dest)
            (later-CapturedIf a rest (knock_loop left rest abortable dest)
              (knock_loop-CapturedIf left rest abortable dest)))
    ]

-- If `waitForClientReady` returns true, the destination is an endpoint from which a valid SYN came in
-- one of the attempts, and the one datagram sent is the acknowledgement of that SYN, to it.
pub wait_for_client_ready-Captured :
    (aborted : Bool) (attempts : List Attempt) (abortable : Bool) (dest : Endpoint)
    → (wait_for_client_ready aborted attempts abortable dest).2 ≡ some true
    → Captured attempts (wait_for_client_ready aborted attempts abortable dest)
unfolding wait_for_client_ready
wait_for_client_ready-Captured aborted attempts abortable dest =
    elim (Bool-cases (abort_requested abortable aborted)) [
      | inl e ↦ rw e (no_capture attempts dest)
      | inr e ↦ rw e (knock_loop-CapturedIf 10 attempts abortable dest)
    ]

hear_returns :
    (k : Knock) (abortable : Bool) (dest : Endpoint) (next : Waiting)
    → next.2 ≢ none
    → (hear k abortable dest next).2 ≢ none
hear_returns (timed_out answer) abortable dest next h = ground (arith, h)
hear_returns failed abortable dest next h = some-ne-none false
hear_returns (got from bytes send_done) abortable dest next h =
    elim (Option-cases (decode_validated_datagram bytes)) [
      | inl e ↦ rw (e, hear) h
      | inr (k, e) ↦
          rw (e, hear)
            (elim (Bool-cases (is_syn k)) [
              | inr other ↦ rw other h
              | inl syn ↦ rw syn (some-ne-none send_done)
            ])
    ]

knock_loop_returns :
    (left : ℕ) (attempts : List Attempt) (abortable : Bool) (dest : Endpoint)
    → left ≤ length attempts
    → (knock_loop left attempts abortable dest).2 ≢ none
unfolding knock_loop
knock_loop_returns zero attempts abortable dest le = some-ne-none false
knock_loop_returns (suc left) [] abortable dest le = absurd (omega arith)
knock_loop_returns (suc left) (a ∷ rest) abortable dest le =
    elim (Bool-cases (abort_requested abortable a.aborted)) [
      | inl e ↦ rw e (some-ne-none false)
      | inr e ↦ rw e (
          hear_returns a.knock abortable dest (knock_loop left rest abortable dest)
            (knock_loop_returns left rest abortable dest (omega arith)))
    ]

-- Ten answers of the network are enough for `waitForClientReady` to return.
pub wait_for_client_ready_returns :
    (aborted : Bool) (attempts : List Attempt) (abortable : Bool) (dest : Endpoint)
    → 10 ≤ length attempts
    → (wait_for_client_ready aborted attempts abortable dest).2 ≢ none
unfolding wait_for_client_ready
wait_for_client_ready_returns aborted attempts abortable dest le =
    elim (Bool-cases (abort_requested abortable aborted)) [
      | inl e ↦ rw e (some-ne-none false)
      | inr e ↦ rw e (knock_loop_returns 10 attempts abortable dest le)
    ]
